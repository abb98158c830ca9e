-- ===== src/Signal.antt =====
-- The classes sigset, scoped_sigprocmask, scoped_signal and pthread_signal of mp/signal.h. A signal
-- action and a handler are numbers; what a set has is a function on the signals.
pub mod Scoped
use mpio.Prelude.{ℕ, zero, suc, ◌==◌, Bool, true, false, Option, none, some, if◌then◌else◌}
use mpio.Os.{Reply, Errno}
use mpio.Family.{update}

-- `sigset`
abbrev pub Sigset : Type 0
Sigset = ℕ → Bool

abbrev pub add : Sigset → ℕ → Sigset
add set signo = update set signo true

abbrev pub del : Sigset → ℕ → Sigset
del set signo = update set signo false

abbrev pub set_empty : Sigset
set_empty signo = false

abbrev pub set_fill : Sigset
set_fill signo = true

-- SIG_IGN
abbrev pub sig_ign : ℕ
sig_ign = 1

-- `sigaction` also gives the action that was set; `sigprocmask` blocks or unblocks a set; `start` is the
-- call of pthread_create; `sigwait` is true where it returns 0.
pub record Signals (W : Type 0) : Type 0 where
  pub sigaction : W → ℕ → ℕ → (Reply × ℕ) × W
  pub sigprocmask : W → (block : Bool) → Sigset → Reply × W
  pub start : W → Reply × W
  pub sigwait : W → Sigset → Bool × W

module _ {W : Type 0} (os : Signals W) where
  abbrev saved : (Reply × ℕ) × W → Option ℕ × W
  saved ((Reply.done n, save), w) = (some save, w)
  saved ((Reply.failed e, save), w) = (none, w)

  -- The constructor of scoped_signal: `m_save`, or it throws.
  unfoldable pub set_signal : ℕ → ℕ → W → Option ℕ × W
  set_signal signo handler w = saved (os.sigaction w signo handler)

  unfoldable pub restore_signal : ℕ → ℕ → W → W
  restore_signal signo save w = (os.sigaction w signo save).1

  abbrev blocked : Reply × W → Bool × W
  blocked (Reply.done n, w) = (true, w)
  blocked (Reply.failed e, w) = (false, w)

  -- The constructor of scoped_sigprocmask returns or throws.
  unfoldable pub block : Sigset → W → Bool × W
  block set w = blocked (os.sigprocmask w true set)

  unfoldable pub unblock : Sigset → W → W
  unblock set w = (os.sigprocmask w false set).1

  -- Where a later part of the constructor of pthread_signal throws, the parts that were made before are
  -- destroyed, the last one first.
  abbrev pub started : ℕ → ℕ → Reply × W → Option ℕ × W
  started signo save (Reply.done n, w) = (some save, w)
  started signo save (Reply.failed e, w) =
      (none, restore_signal signo save (unblock (add set_empty signo) w))

  abbrev pub masked : ℕ → ℕ → Bool × W → Option ℕ × W
  masked signo save (true, w) = started signo save (os.start w)
  masked signo save (false, w) = (none, restore_signal signo save w)

  abbrev pub ignored : ℕ → Option ℕ × W → Option ℕ × W
  ignored signo (none, w) = (none, w)
  ignored signo (some save, w) = masked signo save (block (add set_empty signo) w)

  -- The constructor of pthread_signal, and its destructor
  unfoldable pub new : ℕ → W → Option ℕ × W
  new signo w = ignored signo (set_signal signo sig_ign w)

  unfoldable pub destroy : ℕ → ℕ → W → W
  destroy signo save w = restore_signal signo save (unblock (add set_empty signo) w)

  -- `thread_main`, for a handler that says whether to go on; `none`: no fuel left.
  unfoldable pub thread_main : (W → Bool × W) → ℕ → ℕ → W → Option W
  thread_main handler zero signo w = none
  thread_main handler (suc fuel) signo w =
      let r = handler (os.sigwait w (add set_empty signo)).1 in
      elim r.0 [ true ↦ thread_main handler fuel signo r.1 | false ↦ some r.1 ]
