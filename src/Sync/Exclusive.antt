-- ===== src/Sync/Exclusive.antt =====
-- No two refs of mp/sync.hmpl reach the same object.
use mathlib.Core.Path.{subst}
use mathlib.Core.Logic.{◌↔◌, ◌⊎◌, inl, inr}
use mpio.Prelude.{
  ℕ, ◌≡◌, ◌≢◌, refl, sym, ◌∙◌, Option, none, some, true, false, Bool-cases, ◌==◌, arith,
}
use mpio.Family.{update}
use mpio.Sync.{
  Sync, init, unlock, refer, create, reset_from, reset, reset_to, move, get, Step, creates, resets,
  resets_to, moves, Reach, begins, after,
}

-- A mutex is locked exactly while a ref refers to its object, and then one ref does.
record IsValid (s : Sync) : Type 0 where
  held : (r m : ℕ) → s.refs r ≡ some m → s.locked m ≡ true
  one : (r r' m : ℕ) → s.refs r ≡ some m → s.refs r' ≡ some m → r ≡ r'
  owned : (m : ℕ) → s.locked m ≡ true → (r : ℕ) × (s.refs r ≡ some m)

init-IsValid : IsValid init
init-IsValid = record { held = λ r m h. cc; one = λ r r' m h h'. cc; owned = λ m h. cc }

-- A ref that refers to nothing is given an object whose mutex was free.
lock-IsValid :
    (r m : ℕ) (s : Sync)
    → s.refs r ≡ none
    → s.locked m ≡ false
    → IsValid s
    → IsValid (refer r (some m) (record s { locked = update s.locked m true }))
lock-IsValid r m s new free v = record {
  held = λ k n h. elim (Bool-cases (r == k)) [
    | inl e ↦ ground arith
    | inr ne ↦ ground (arith, v.held k n)
  ];
  one = λ k k' n h h'. elim (Bool-cases (r == k)) [
    | inl e ↦ ground (arith, v.held k' m)
    | inr ne ↦ elim (Bool-cases (r == k')) [
      | inl e ↦ ground (arith, v.held k m)
      | inr ne' ↦ ground (arith, v.one k k' n)
    ]
  ];
  owned = λ n h. elim (Bool-cases (m == n)) [
    | inl e ↦ (r, ground arith)
    | inr ne ↦ let (k, hk) = v.owned n (ground arith) in (k, ground arith)
  ];
}

unlock-IsValid :
    (r m : ℕ) (s : Sync) → s.refs r ≡ some m → IsValid s → IsValid (refer r none (unlock m s))
unlock-IsValid r m s h v = record {
  held = λ k n h'. elim (Bool-cases (r == k)) [
    | inl e ↦ ground arith
    | inr ne ↦ ground (arith, v.held k n, v.one r k m)
  ];
  one = λ k k' n g g'. ground (arith, v.one k k' n);
  owned = λ n g. elim (Bool-cases (m == n)) [
    | inl e ↦ ground arith
    | inr ne ↦ let (k, hk) = v.owned n (ground arith) in (k, ground arith)
  ];
}

same : {s t : Sync} → ◌≡◌ {A = Option Sync} (some s) (some t) → s ≡ t
same h = cc

-- A constructor that returns found the mutex free, and one that waits did not.
create_lem :
    (r m : ℕ) (s : Sync)
    → ((s.locked m ≡ true) × (create r m s ≡ none))
      ⊎ ((s.locked m ≡ false)
          × (create r m s ≡ some (refer r (some m) (record s { locked = update s.locked m true }))))
unfolding create
create_lem r m s = elim (Bool-cases (s.locked m)) [
  | inl taken ↦ inl (taken, rw taken refl)
  | inr free ↦ inr (free, rw free refl)
]

create-IsValid :
    (r m : ℕ) (s t : Sync) → s.refs r ≡ none → create r m s ≡ some t → IsValid s → IsValid t
create-IsValid r m s t new e v = elim (create_lem r m s) [
  | inl (taken, waits) ↦ absurd cc
  | inr (free, made) ↦ subst IsValid (same (sym made ∙ e)) (lock-IsValid r m s new free v)
]

reset-IsValid : (r : ℕ) (s : Sync) → IsValid s → IsValid (reset r s)
unfolding reset
reset-IsValid r s v = from (s.refs r) refl
  where
    from : (m : Option ℕ) → s.refs r ≡ m → IsValid (reset_from m r s)
    from none e = v
    from (some m) e = unlock-IsValid r m s e v

-- After `reset` the ref refers to nothing.
reset-refs : (r : ℕ) (s : Sync) → (reset r s).refs r ≡ none
unfolding reset
reset-refs r s = from (s.refs r) refl
  where
    from : (m : Option ℕ) → s.refs r ≡ m → (reset_from m r s).refs r ≡ none
    from none e = e
    from (some m) e = ground arith

reset_to-IsValid : (r m : ℕ) (s t : Sync) → reset_to r m s ≡ some t → IsValid s → IsValid t
unfolding reset_to
reset_to-IsValid r m s t e v =
    create-IsValid r m (reset r s) t (reset-refs r s) e (reset-IsValid r s v)

move-IsValid : (o r : ℕ) (s : Sync) → s.refs r ≡ none → o ≢ r → IsValid s → IsValid (move o r s)
unfolding move
move-IsValid o r s new ne v = record {
  held = λ k n h. elim (Bool-cases (r == k)) [
    | inl e ↦ ground (arith, v.held o n)
    | inr d ↦ ground (arith, v.held k n)
  ];
  one = λ k k' n h h'. elim (Bool-cases (r == k)) [
    | inl e ↦ elim (Bool-cases (r == k')) [
      | inl e' ↦ ground arith
      | inr d' ↦ ground (arith, v.one o k' n)
    ]
    | inr d ↦ elim (Bool-cases (r == k')) [
      | inl e' ↦ ground (arith, v.one o k n)
      | inr d' ↦ ground (arith, v.one k k' n)
    ]
  ];
  owned = λ n h.
      let (k, hk) = v.owned n h in
      elim (Bool-cases (o == k)) [ inl e ↦ (r, ground arith) | inr d ↦ (k, ground arith) ];
}

Step-IsValid : {s t : Sync} → Step s t → IsValid s → IsValid t
Step-IsValid (creates r m new e) v = create-IsValid r m _ _ new e v
Step-IsValid (resets r e) v = subst IsValid e (reset-IsValid r _ v)
Step-IsValid (resets_to r m e) v = reset_to-IsValid r m _ _ e v
Step-IsValid (moves o r new ne e) v = subst IsValid e (move-IsValid o r _ new ne v)

Reach-IsValid : {s : Sync} → Reach s → IsValid s
Reach-IsValid begins = init-IsValid
Reach-IsValid (after p step) = Step-IsValid step (Reach-IsValid p)

-- However the threads make, move and reset their refs, where a call is one step: two refs never
-- reach the same object.
pub get-Apart : (s : Sync) → Reach s → (r r' m : ℕ) → r ≢ r' → get r s ≡ some m → get r' s ≢ some m
unfolding get
get-Apart s p r r' m ne h h' = ne ((Reach-IsValid p).one r r' m h h')

-- However the threads make, move and reset their refs, where a call is one step: a constructor of
-- a ref waits exactly while some ref refers to its object.
pub create-Waits :
    (s : Sync) → Reach s → (r m : ℕ) → (create r m s ≡ none) ↔ ((k : ℕ) × (get k s ≡ some m))
unfolding get
create-Waits s p r m = elim (create_lem r m s) [
  | inl (taken, waits) ↦ (λ h. (Reach-IsValid p).owned m taken, λ h. waits)
  | inr (free, made) ↦
      (λ h. absurd cc, λ (k, h). absurd (let on = (Reach-IsValid p).held k m h in cc))
]
