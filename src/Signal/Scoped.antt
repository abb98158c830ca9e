-- ===== src/Signal/Scoped.antt =====
-- What the objects of mp/signal.h leave of the actions and the mask of signals.
use mpio.Prelude.{
  ℕ, zero, suc, ◌<◌, ◌≡◌, refl, sym, ap, ◌∙◌, Bool, true, false, not, ◌&&◌, ◌==◌, Bool-cases, inl,
  inr, Option, none, some, if◌then◌else◌, arith,
}
use mpio.Os.{Reply, Errno}
use mpio.Signal.{
  Sigset, add, set_empty, sig_ign, Signals, set_signal, restore_signal, block, unblock, started,
  masked, ignored, new, destroy, thread_main,
}

-- sigaction(2), sigprocmask(2), and pthread_create, by the action of each signal and the signals that are
-- blocked. Only some signals can have an action.
pub record IsLawful {W : Type 0} (os : Signals W) (action : W → ℕ → ℕ) (mask : W → Sigset)
    (can_set : ℕ → Bool) : Type 0 where
  pub sigaction_sets :
      (w : W) (signo a s : ℕ)
      → action (os.sigaction w signo a).1 s
        ≡ (if signo == s && can_set signo then a else action w s)
  pub sigaction_done :
      (w : W) (signo a n : ℕ)
      → (os.sigaction w signo a).0.0 ≡ Reply.done n
      → (can_set signo ≡ true) × ((os.sigaction w signo a).0.1 ≡ action w signo)
  pub sigaction_failed :
      (w : W) (signo a : ℕ) (e : Errno)
      → (os.sigaction w signo a).0.0 ≡ Reply.failed e
      → can_set signo ≡ false
  pub sigaction_mask : (w : W) (signo a s : ℕ) → mask (os.sigaction w signo a).1 s ≡ mask w s
  pub sigprocmask_sets :
      (w : W) (blocks : Bool) (set : Sigset) (n s : ℕ)
      → (os.sigprocmask w blocks set).0 ≡ Reply.done n
      → mask (os.sigprocmask w blocks set).1 s ≡ (if set s then blocks else mask w s)
  pub sigprocmask_action :
      (w : W) (blocks : Bool) (set : Sigset) (s : ℕ)
      → action (os.sigprocmask w blocks set).1 s ≡ action w s
  pub start_action : (w : W) (s : ℕ) → action (os.start w).1 s ≡ action w s

module _ {W : Type 0} (os : Signals W) (action : W → ℕ → ℕ) (mask : W → Sigset) (can_set : ℕ → Bool)
    (lawful : IsLawful os action mask can_set) where
  -- An action that is restored is as it was; no other has changed.
  restored :
      (signo a : ℕ) (w w' : W)
      → can_set signo ≡ true
      → ((s : ℕ) → action w' s ≡ (if signo == s then a else action w s))
      → (s : ℕ) → action (restore_signal os signo (action w signo) w') s ≡ action w s
  unfolding restore_signal
  restored signo a w w' can h s =
      lawful.sigaction_sets w' signo (action w signo) s ∙ (elim (Bool-cases (signo == s)) [
        | inl same ↦ rw (same, can) (ap (action w) (ground (arith, same)))
        | inr other ↦ rw other (h s ∙ ground (arith, other))
      ])

  unblock-action : (set : Sigset) (w : W) (s : ℕ) → action (unblock os set w) s ≡ action w s
  unfolding unblock
  unblock-action set w s = lawful.sigprocmask_action w false set s

  -- The constructor of pthread_signal ignores the signal, or it throws and every action is as before.
  abbrev pub Ignored : ℕ → W → Option ℕ × W → Type 0
  Ignored signo w (none, w') = (s : ℕ) → action w' s ≡ action w s
  Ignored signo w (some save, w') =
      (can_set signo ≡ true)
      × (save ≡ action w signo)
      × ((s : ℕ) → action w' s ≡ (if signo == s then sig_ign else action w s))

  started-Ignored :
      (signo : ℕ) (w w' : W) (r : Reply × W)
      → can_set signo ≡ true
      → ((s : ℕ) → action r.1 s ≡ (if signo == s then sig_ign else action w s))
      → Ignored signo w (started os signo (action w signo) r)
  started-Ignored signo w w' (Reply.done n, w2) can h = (can, refl, h)
  started-Ignored signo w w' (Reply.failed e, w2) can h =
      restored signo sig_ign w (unblock os (add set_empty signo) w2) can
        (λ s. unblock-action (add set_empty signo) w2 s ∙ h s)

  masked-Ignored :
      (signo : ℕ) (w : W) (r : Bool × W)
      → can_set signo ≡ true
      → ((s : ℕ) → action r.1 s ≡ (if signo == s then sig_ign else action w s))
      → Ignored signo w (masked os signo (action w signo) r)
  masked-Ignored signo w (true, w') can h =
      started-Ignored signo w w' (os.start w') can (λ s. lawful.start_action w' s ∙ h s)
  masked-Ignored signo w (false, w') can h = restored signo sig_ign w w' can h

  block-action : (set : Sigset) (w : W) (s : ℕ) → action (block os set w).1 s ≡ action w s
  unfolding block
  block-action set w s = go (os.sigprocmask w true set) (lawful.sigprocmask_action w true set s)
    where
      go :
          (r : Reply × W)
          → action r.1 s ≡ action w s
          → action (mpio.Signal.blocked os r).1 s ≡ action w s
      go (Reply.done n, w') h = h
      go (Reply.failed e, w') h = h

  -- The constructor of pthread_signal either ignores its signal and has kept the action it had, or
  -- throws; then every action is as before, whichever part threw.
  pub new-Ignored : (signo : ℕ) (w : W) → Ignored signo w (new os signo w)
  unfolding new set_signal
  new-Ignored signo w =
      go (os.sigaction w signo sig_ign) (λ s. lawful.sigaction_sets w signo sig_ign s)
        (λ n e. lawful.sigaction_done w signo sig_ign n e)
        (λ e h. lawful.sigaction_failed w signo sig_ign e h)
    where
      go :
          (r : (Reply × ℕ) × W)
          → ((s : ℕ) → action r.1 s ≡ (if signo == s && can_set signo then sig_ign else action w s))
          → ((n : ℕ) → r.0.0 ≡ Reply.done n → (can_set signo ≡ true) × (r.0.1 ≡ action w signo))
          → ((e : Errno) → r.0.0 ≡ Reply.failed e → can_set signo ≡ false)
          → Ignored signo w (ignored os signo (mpio.Signal.saved os r))
      go ((Reply.done n, save), w') h ok bad =
          let (can, old) = ok n refl in
          rw old (
            masked-Ignored signo w (block os (add set_empty signo) w') can
              (λ s. block-action (add set_empty signo) w' s ∙ h s ∙ ground (arith, can)))
      go ((Reply.failed e, save), w') h ok bad = λ s. h s ∙ ground (arith, bad e refl)

  -- A pthread_signal that is made and destroyed leaves every action as it was.
  pub destroy-new :
      (signo save : ℕ) (w w' : W)
      → new os signo w ≡ (some save, w')
      → (s : ℕ) → action (destroy os signo save w') s ≡ action w s
  unfolding destroy
  destroy-new signo save w w' e s =
      let made : Ignored signo w (new os signo w) = new-Ignored signo w in
      let (can, old, now) = rw e at made in
      rw old (
        restored signo sig_ign w (unblock os (add set_empty signo) w') can
          (λ s. unblock-action (add set_empty signo) w' s ∙ now s) s)

  -- A scoped_sigprocmask that is made and destroyed unblocks each of its signals, also one that was
  -- blocked before; the others are blocked as before.
  pub unblock-block :
      (set : Sigset) (w w' : W) (n : ℕ)
      → block os set w ≡ (true, w')
      → (os.sigprocmask w' false set).0 ≡ Reply.done n
      → (s : ℕ) → mask (unblock os set w') s ≡ mask w s && not (set s)
  unfolding unblock block
  unblock-block set w w' n e done s =
      lawful.sigprocmask_sets w' false set n s done
      ∙ go (os.sigprocmask w true set) e (λ m h. lawful.sigprocmask_sets w true set m s h)
    where
      go :
          (r : Reply × W)
          → mpio.Signal.blocked os r ≡ (true, w')
          → ((m : ℕ) → r.0 ≡ Reply.done m → mask r.1 s ≡ (if set s then true else mask w s))
          → (if set s then false else mask w' s) ≡ mask w s && not (set s)
      go (Reply.done m, w2) h now =
          let same : w2 ≡ w' = ap (λ p. p.1) h in
          let masked_now : mask w' s ≡ (if set s then true else mask w s) =
            ap (λ x. mask x s) (sym same) ∙ now m refl in
          elim (Bool-cases (set s)) [
            | inl of ↦ rw of (ground arith)
            | inr other ↦ rw other (masked_now ∙ ground (arith, other))
          ]
      go (Reply.failed x, w2) h now = absurd (let z : false ≡ true = ap (λ p. p.0) h in cc)

module _ {W : Type 0} (os : Signals W) (handler : W → Bool × W) (signo : ℕ) where
  -- One wait and one call of the handler.
  abbrev pub round : W → Bool × W
  round w = handler (os.sigwait w (add set_empty signo)).1

  -- After `k` rounds.
  abbrev pub rounds : ℕ → W → W
  rounds zero w = w
  rounds (suc k) w = rounds k (round w).1

  -- The thread returns exactly when its handler first says not to go on, after a wait for each
  -- call, whatever the waits return.
  pub thread_main-returns :
      (k fuel : ℕ) (w : W)
      → k < fuel
      → ((j : ℕ) → j < k → (round (rounds j w)).0 ≡ true)
      → (round (rounds k w)).0 ≡ false
      → thread_main os handler fuel signo w ≡ some (rounds (suc k) w)
  unfolding thread_main
  thread_main-returns zero zero w lt on off = absurd (omega arith)
  thread_main-returns (suc k) zero w lt on off = absurd (omega arith)
  thread_main-returns zero (suc fuel) w lt on off = rw (off, thread_main) refl
  thread_main-returns (suc k) (suc fuel) w lt on off =
      rw (on zero (omega arith), thread_main)
        (thread_main-returns k fuel (round w).1 (omega arith) (λ j h. on (suc j) (omega arith)) off)
