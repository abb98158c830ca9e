-- ===== src/Lock/Balance.antt =====
-- A scoped lock of mp/pthread.h gives back what it takes.
use mpio.Prelude.{
  ℕ, ◌+◌, ◌-◌, ◌≡◌, refl, List, [], ◌∷◌, Option, none, some, ◌>>=◌, Bool, true, false, ◌==◌,
  if◌then◌else◌, arith,
}
use mpio.Family.{update}
use mpio.Lock.{
  Held, Scoped, lock_mutex, create, unlock, relock, destroy, Use, unlocks, relocks, run,
}

-- The locks that the object has, on top of what the thread had before.
abbrev own : Scoped → ℕ → ℕ
own none d = 0
own (some m) d = if m == d then 1 else 0

record Kept (before : Held) (o : Option (Scoped × Held)) : Type 0 where
  scoped : Scoped
  held : Held
  returns : o ≡ some (scoped, held)
  exact : (d : ℕ) → held d ≡ before d + own scoped d

record Freed (before : Held) (s : Scoped) (h : Held) : Type 0 where
  held : Held
  returns : unlock s h ≡ some (none, held)
  destroys : destroy s h ≡ some held
  exact : (d : ℕ) → held d ≡ before d

module _ (before : Held) where
  unlock-Freed : (s : Scoped) (h : Held) → ((d : ℕ) → h d ≡ before d + own s d) → Freed before s h
  unfolding unlock destroy
  unlock-Freed none h e = record {
    held = h;
    returns = refl;
    destroys = refl;
    exact = λ d. omega (arith, e d);
  }
  unlock-Freed (some m) h e =
      let locked : (h m == 0) ≡ false = ground (arith, e m) in
      record {
        held = update h m (h m - 1);
        returns = rw locked refl;
        destroys = rw locked refl;
        exact = λ d. ground (arith, e d, e m);
      }

  lock_mutex-exact :
      (m : ℕ) (ok : Bool) (h : Held)
      → ((d : ℕ) → h d ≡ before d)
      → (d : ℕ) → (lock_mutex m ok h).1 d ≡ before d + own (lock_mutex m ok h).0 d
  lock_mutex-exact m true h e d = ground (arith, e d, e m)
  lock_mutex-exact m false h e d = omega (arith, e d)

  run-Kept :
      (us : List Use) (s : Scoped) (h : Held)
      → ((d : ℕ) → h d ≡ before d + own s d)
      → Kept before (run us s h)
  unfolding run relock
  run-Kept [] s h e = record { scoped = s; held = h; returns = refl; exact = e }
  run-Kept (unlocks ∷ us) s h e =
      let f : Freed before s h = unlock-Freed s h e in
      rw f.returns (run-Kept us none f.held (λ d. omega (arith, f.exact d)))
  run-Kept (relocks m ok ∷ us) s h e =
      let f : Freed before s h = unlock-Freed s h e in
      rw f.returns (
        run-Kept us (lock_mutex m ok f.held).0 (lock_mutex m ok f.held).1
          (lock_mutex-exact m ok f.held f.exact))

-- The thread has the locks that it had before, and none was unlocked that it had not.
pub record Balanced (before : Held) (o : Option Held) : Type 0 where
  pub held : Held
  pub returns : o ≡ some held
  pub same : (d : ℕ) → held d ≡ before d

-- However a scoped lock is used between its constructor and its destructor, and whichever calls
-- that lock throw, it never unlocks what the thread has not locked, and at the end the thread has
-- the locks that it had before.
pub scoped-Balanced :
    (m : ℕ) (ok : Bool) (us : List Use) (before : Held)
    → Balanced before
        (run us (create m ok before).0 (create m ok before).1 >>= λ (s, h). destroy s h)
unfolding create
scoped-Balanced m ok us before =
    let k : Kept before (run us (lock_mutex m ok before).0 (lock_mutex m ok before).1) =
      run-Kept before us _ _ (lock_mutex-exact before m ok before (λ d. refl)) in
    let f : Freed before k.scoped k.held = unlock-Freed before k.scoped k.held k.exact in
    rw (k.returns, f.destroys) (record { held = f.held; returns = refl; same = f.exact })
