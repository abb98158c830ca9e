-- ===== src/Kqueue.antt =====
-- The class kernel of mpsrc/wavy_kernel_kqueue.h: identifiers above the descriptors for timers and
-- signals, and what is registered with kqueue.
-- `kevent` registers one change with the queue `m_kq`. A long has 64 bits. The slots are taken with a
-- compare-and-swap, so each round of the search is one step; here no other thread takes one meanwhile.
-- `m_fdmax` and the identifiers are below 2 ^ 31, so that an int holds them.
pub mod Slots
pub mod Registered
use mpio.Prelude.{
  ℕ, zero, suc, ◌+◌, ◌-◌, ◌*◌, ◌/◌, ◌%◌, ◌^◌, ◌==◌, Option, none, some, Bool, true, false,
  if◌then◌else◌,
}
use mpio.Os.{Reply, Errno}
use mpio.Family.{update}
use mpio.Posix.{Posix, Create, Timespec, or_fail}

-- MP_WAVY_KERNEL_KQUEUE_XIDENT_MAX
abbrev pub xident_max : ℕ
xident_max = 256

pub data Filter : Type 0 where
  evfilt_read evfilt_write evfilt_timer evfilt_signal : Filter
  evfilt_other : ℕ → Filter

abbrev pub same_filter : Filter → Filter → Bool
same_filter evfilt_read evfilt_read = true
same_filter evfilt_write evfilt_write = true
same_filter evfilt_timer evfilt_timer = true
same_filter evfilt_signal evfilt_signal = true
same_filter (evfilt_other f) (evfilt_other g) = f == g
same_filter _ _ = false

-- EV_ADD|EV_ONESHOT and EV_DELETE
pub data Flags : Type 0 where
  add_oneshot delete : Flags

-- `struct kevent`; the code leaves `fflags` 0.
pub record Kevent : Type 0 where
  pub kident : ℕ
  pub filter : Filter
  pub flags : Flags
  pub kdata : ℕ
  pub udata : ℕ

-- `m_fdmax`, `m_xident` and `m_xident_index`
pub record Kernel : Type 0 where
  pub fdmax : ℕ
  pub xident : ℕ → Bool
  pub index : ℕ

abbrev pub fresh : ℕ → Kernel
fresh fdmax = record { fdmax = fdmax; xident = λ x. false; index = 0 }

module _ {W : Type 0} (os : Posix W) where
  -- `::close(m_kq)`, where that may be -1
  abbrev pub close_reply : Reply → W → W
  close_reply (Reply.done kq) w = os.close w kq
  close_reply (Reply.failed e) w = w

  unfoldable pub limited : Reply → Reply × W → Option (ℕ × Kernel) × W
  limited kq (Reply.failed e, w) = (none, close_reply kq w)
  limited (Reply.failed e) (Reply.done fdmax, w) = (none, w)
  limited (Reply.done kq) (Reply.done fdmax, w) = (some (kq, fresh fdmax), w)

  -- The constructor: `m_kq` and the rest, or it throws.
  unfoldable pub new : W → Option (ℕ × Kernel) × W
  new w = let r = os.create w Create.kqueue in limited r.0 (os.getrlimit r.1)

  -- The destructor
  unfoldable pub close : ℕ → W → W
  close kq w = os.close w kq

abbrev pub max : Kernel → ℕ
max k = k.fdmax + xident_max

-- `for(unsigned int i=0; i < XIDENT_MAX*2; ++i)`: -1 is none.
unfoldable pub alloc_loop : ℕ → Kernel → Option ℕ × Kernel
alloc_loop zero k = (none, k)
alloc_loop (suc rounds) k =
    let x = k.index % xident_max in
    let k' = record k { index = (k.index + 1) % 2 ^ 32 } in
    let rest = alloc_loop rounds k' in
    if k.xident x then rest else (some (k.fdmax + x), record k' { xident = update k.xident x true })

unfoldable pub alloc_xident : Kernel → Option ℕ × Kernel
alloc_xident k = alloc_loop (xident_max * 2) k

unfoldable pub free_xident : ℕ → Kernel → Bool × Kernel
free_xident xident k =
    let x = xident - k.fdmax in
    if k.xident x then (true, record k { xident = update k.xident x false }) else (false, k)

-- `kernel::event::ident`
abbrev pub ident_filter : Filter → Kevent → ℕ
ident_filter evfilt_signal e = e.udata
ident_filter _ e = e.kident

unfoldable pub ident : Kevent → ℕ
ident e = ident_filter e.filter e

-- Milliseconds, as an unsigned long
unfoldable pub msec : Option Timespec → ℕ
msec none = 0
msec (some t) = (t.tv_sec * 1000 + t.tv_nsec / 1000 / 1000) % 2 ^ 64

-- A value that is missing is the interval.
unfoldable pub first_msec : Option Timespec → Option Timespec → ℕ
first_msec none interval = msec interval
first_msec (some value) interval = msec (some value)

-- The timeout of `wait`
unfoldable pub timeout : ℕ → Timespec
timeout timeout_msec = record {
  tv_sec = timeout_msec / 1000;
  tv_nsec = timeout_msec % 1000 * 1000000;
}

module _ {W : Type 0} (kevent : W → Kevent → Reply × W) where
  unfoldable pub set_event : ℕ → Filter → Flags → ℕ → ℕ → W → Reply × W
  set_event ident filter flags kdata udata w =
      kevent w
        (record { kident = ident; filter = filter; flags = flags; kdata = kdata; udata = udata })

  unfoldable pub add_fd : ℕ → Filter → W → Reply × W
  add_fd fd event w = set_event fd event add_oneshot 0 0 w

  unfoldable pub remove_fd : ℕ → Filter → W → Reply × W
  remove_fd fd event w = set_event fd event delete 0 0 w

  -- `add_kernel`, for the queue of the other object
  unfoldable pub add_kernel : ℕ → W → Reply × W
  add_kernel other_kq w = or_fail (add_fd other_kq evfilt_read w) (λ n w. (Reply.done other_kq, w))

  -- `if(set_event(...) < 0) { free_xident(xident); return -1; }`; else the object has the identifier.
  abbrev pub or_free : ℕ → Kernel → Reply × W → Reply × (Kernel × W)
  or_free xident k (Reply.done n, w) = (Reply.done xident, (k, w))
  or_free xident k (Reply.failed e, w) = (Reply.failed e, ((free_xident xident k).1, w))

  -- With an identifier, or -1 and EMFILE where there is none (24).
  abbrev pub with_xident : W → Option ℕ × Kernel → (ℕ → Reply × W) → Reply × (Kernel × W)
  with_xident w (none, k) set = (Reply.failed (Errno.other 24), (k, w))
  with_xident w (some xident, k) set = or_free xident k (set xident)

  unfoldable pub add_timer : Option Timespec → Option Timespec → Kernel → W → Reply × (Kernel × W)
  add_timer value interval k w = with_xident w (alloc_xident k) (λ xident.
      set_event xident evfilt_timer add_oneshot (first_msec value interval) (msec interval) w)

  unfoldable pub remove_timer : ℕ → W → Reply × W
  remove_timer ident w = set_event ident evfilt_timer delete 0 0 w

  unfoldable pub add_signal : ℕ → Kernel → W → Reply × (Kernel × W)
  add_signal signo k w =
      with_xident w (alloc_xident k)
        (λ xident. set_event signo evfilt_signal add_oneshot 0 xident w)

  unfoldable pub remove_signal : ℕ → W → Reply × W
  remove_signal ident w = set_event ident evfilt_signal delete 0 0 w

  -- The destructors of the timer and of the signal object
  unfoldable pub destroy_timer : Option ℕ → Kernel → W → Kernel × W
  destroy_timer none k w = (k, w)
  destroy_timer (some xident) k w = let r = remove_timer xident w in ((free_xident xident k).1, r.1)

  unfoldable pub destroy_signal : Option ℕ → Kernel → W → Kernel × W
  destroy_signal none k w = (k, w)
  destroy_signal (some xident) k w =
      let r = remove_signal xident w in ((free_xident xident k).1, r.1)

  -- The `switch` on the filter; -1 is none.
  unfoldable pub reactivate_filter : Filter → Kevent → W → Option (Reply × W)
  reactivate_filter evfilt_read e w = some (add_fd (ident e) evfilt_read w)
  reactivate_filter evfilt_write e w = some (add_fd (ident e) evfilt_write w)
  reactivate_filter evfilt_timer e w =
      some (set_event (ident e) evfilt_timer add_oneshot e.udata e.udata w)
  reactivate_filter evfilt_signal e w =
      some (set_event e.kident evfilt_signal add_oneshot 0 e.udata w)
  reactivate_filter (evfilt_other f) e w = none

  unfoldable pub reactivate : Kevent → W → Option (Reply × W)
  reactivate e w = reactivate_filter e.filter e w

-- The event has been delivered once and is registered no more: 0, or -1 for other filters.
unfoldable pub remove : Kevent → Bool
remove e = elim e.filter [ evfilt_other f ↦ false | _ ↦ true ]
