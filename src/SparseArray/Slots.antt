-- ===== src/SparseArray/Slots.antt =====
-- The items of sparse_array (mp/sparse_array.hmpl), and when an array is well formed.
use mathlib.Core.Path.{subst}
use mpio.Prelude.{
  ℕ, zero, suc, ◌*◌, ◌/◌, ◌%◌, ◌<◌, ◌≤◌, ◌≡◌, ◌≢◌, refl, ap, ◌∙◌, List, [], ◌∷◌, ◌++◌, Option, none,
  some, Bool, true, false, ◌==◌, ==→eq, Bool-cases, inl, inr, length, get_elem?, ltb, ◌>>=◌,
  if◌then◌else◌, arith,
}
use mpio.Family.{update}
use mpio.SparseArray.{Slot, Sparse, modify, item_of, put, seen, get, test, data_of}

pub modify-same {ℓ} :
    {X : Type ℓ} (xs : List X) (k : ℕ) (f : X → X)
    → k < length xs
    → (x : X) × (get_elem? xs k ≡ some x) × (get_elem? (modify xs k f) k ≡ some (f x))
modify-same [] k f h = absurd (omega arith)
modify-same (x ∷ xs) zero f h = (x, refl, refl)
modify-same (x ∷ xs) (suc k) f h = modify-same xs k f (omega arith)

modify-other {ℓ} :
    {X : Type ℓ} (xs : List X) (k m : ℕ) (f : X → X)
    → k ≢ m
    → get_elem? (modify xs k f) m ≡ get_elem? xs m
modify-other [] k m f ne = refl
modify-other (x ∷ xs) zero zero f ne = absurd (ne refl)
modify-other (x ∷ xs) zero (suc m) f ne = refl
modify-other (x ∷ xs) (suc k) zero f ne = refl
modify-other (x ∷ xs) (suc k) (suc m) f ne = modify-other xs k m f (λ e. ne (ap suc e))

pub length-modify {ℓ} :
    {X : Type ℓ} (xs : List X) (k : ℕ) (f : X → X) → length (modify xs k f) ≡ length xs
length-modify [] k f = refl
length-modify (x ∷ xs) zero f = refl
length-modify (x ∷ xs) (suc k) f = ap suc (length-modify xs k f)

pub get_elem?-above {ℓ} : {X : Type ℓ} (xs : List X) (k : ℕ) → length xs ≤ k → get_elem? xs k ≡ none
get_elem?-above [] k h = refl
get_elem?-above (x ∷ xs) zero h = absurd (omega arith)
get_elem?-above (x ∷ xs) (suc k) h = get_elem?-above xs k (omega arith)

-- A segment more changes nothing that there was.
pub get_elem?-more {ℓ} :
    {X : Type ℓ} (xs : List X) (y : X) (k : ℕ)
    → get_elem? (xs ++ (y ∷ [])) k ≡ (if k == length xs then some y else get_elem? xs k)
get_elem?-more [] y zero = refl
get_elem?-more [] y (suc k) = ground arith
get_elem?-more (x ∷ xs) y zero = ground arith
get_elem?-more (x ∷ xs) y (suc k) = get_elem?-more xs y k ∙ ground arith

abbrev pub is_some {ℓ} : {X : Type ℓ} → Option X → Bool
is_some none = false
is_some (some x) = true

module _ {A : Type 0} where
  pub item_of-put :
      (arr : Sparse A) (i j : ℕ) (s : Slot A)
      → i / 64 < length arr
      → item_of (put arr i s) j ≡ (if i == j then some s else item_of arr j)
  unfolding item_of put
  item_of-put arr i j s h = elim (Bool-cases (i / 64 == j / 64)) [
    | inl same ↦
        let q : i / 64 ≡ j / 64 = ==→eq (i / 64) (j / 64) same in
        let (seg, here, now) = modify-same arr (i / 64) (λ seg. update seg (i % 64) s) h in
        subst
          (λ k.
            (get_elem? (modify arr (i / 64) (λ seg. update seg (i % 64) s)) k >>= λ seg.
            some (seg (j % 64)))
            ≡ (if i == j then some s else (get_elem? arr k >>= λ seg. some (seg (j % 64)))))
          q
          (rw (now, here)
            (elim (Bool-cases (i == j)) [
              | inl eq ↦ let r : (i % 64 == j % 64) ≡ true = ground (arith, eq) in rw (eq, r) refl
              | inr ne ↦
                  let r : (i % 64 == j % 64) ≡ false = ground (arith, ne, q) in rw (ne, r) refl
            ]))
    | inr other ↦
        let ne : (i == j) ≡ false = ground (arith, other) in
        let apart : i / 64 ≢ j / 64 = ground (arith, other) in
        rw (modify-other arr (i / 64) (j / 64) (λ seg. update seg (i % 64) s) apart, ne) refl
  ]

  pub get-look : (arr : Sparse A) (i : ℕ) → get i arr ≡ (item_of arr i >>= seen)
  unfolding get item_of
  get-look arr i = elim (Bool-cases (ltb i (length arr * 64))) [
    | inl inside ↦ rw inside refl
    | inr outside ↦ rw (outside, get_elem?-above arr (i / 64) (ground arith)) refl
  ]

  -- An object is there exactly where the flag is set.
  abbrev pub Alive : Bool → Option A → Type 0
  Alive true none = ⊥
  Alive true (some v) = Unit
  Alive false none = Unit
  Alive false (some v) = ⊥

  abbrev pub IsValid : Sparse A → Type 0
  IsValid arr = (i : ℕ) (s : Slot A) → item_of arr i ≡ some s → Alive s.enable s.object

  pub some_inj : (s t : Slot A) → some s ≡ some t → s ≡ t
  some_inj s t e = cc

  -- On a valid array `test` says whether `get` gives an object, and `data` gives the same object.
  pub test-get :
      (arr : Sparse A) (i : ℕ)
      → IsValid arr
      → (test i arr ≡ is_some (get i arr)) × (test i arr ≡ true → data_of i arr ≡ get i arr)
  unfolding test get data_of
  test-get arr i v = elim (Bool-cases (ltb i (length arr * 64))) [
    | inl inside ↦ rw inside (slot (item_of arr i) refl)
    | inr outside ↦ rw outside (refl, λ e. absurd (cc))
  ]
    where
      slot :
          (o : Option (Slot A))
          → item_of arr i ≡ o
          → ((elim o [ none ↦ false | some s ↦ s.enable ]) ≡ is_some (o >>= seen))
            × ((elim o [ none ↦ false | some s ↦ s.enable ]) ≡ true
                → (o >>= λ s. s.object) ≡ (o >>= seen))
      slot none e = (refl, λ h. absurd (cc))
      slot (some s) e = flag s.enable s.object (v i s e)
        where
          flag :
              (b : Bool) (x : Option A)
              → Alive b x
              → (b ≡ is_some (if b then x else none)) × (b ≡ true → x ≡ (if b then x else none))
          flag true (some y) ok = (refl, λ h. refl)
          flag true none ok = absurd ok
          flag false none ok = (refl, λ h. refl)
          flag false (some y) ok = absurd ok
