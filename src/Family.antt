-- ===== src/Family.antt =====
-- Arrays indexed by a descriptor: a write at one index, and a count over the first `n`.
use mpio.Prelude.{◌≢◌, ℕ, zero, suc, ◌+◌, ◌≤◌, ◌<◌, ◌≡◌, refl, ◌==◌, if◌then◌else◌, arith}
use native.Mathlib.Decide.{dec_lt}

abbrev pub update {ℓ} : {A : Type ℓ} → (ℕ → A) → ℕ → A → ℕ → A
update f i a j = if i == j then a else f j

module _ {ℓ} {A : Type ℓ} (weight : A → ℕ) where
  unfoldable pub count : ℕ → (ℕ → A) → ℕ
  count zero f = 0
  count (suc n) f = count n f + weight (f n)

  count-update_above :
      (n : ℕ) (f : ℕ → A) (i : ℕ) (a : A) → n ≤ i → count n (update f i a) ≡ count n f
  unfolding count
  count-update_above zero f i a h = refl
  count-update_above (suc n) f i a h = ground (arith, count-update_above n f i a)

  pub count-update :
      (n : ℕ) (f : ℕ → A) (i : ℕ) (a : A)
      → i < n
      → count n (update f i a) + weight (f i) ≡ count n f + weight a
  unfolding count
  count-update zero f i a h = absurd (omega arith)
  count-update (suc n) f i a h = elim (dec_lt i n) [
    | yes before ↦ ground (arith, count-update n f i a before)
    | no at ↦ ground (arith, count-update_above n f i a)
  ]

  -- A count of 0 has no weight in it.
  pub count-zero : (n : ℕ) (f : ℕ → A) (i : ℕ) → count n f ≡ 0 → i < n → weight (f i) ≡ 0
  unfolding count
  count-zero zero f i e h = absurd (omega arith)
  count-zero (suc n) f i e h = elim (dec_lt i n) [
    | yes before ↦ count-zero n f i (omega arith) before
    | no at ↦ let last : i ≡ n = omega arith in rw last (omega arith)
  ]

  -- A count above 0 has a weight in it.
  pub count-some : (n : ℕ) (f : ℕ → A) → 0 < count n f → (i : ℕ) × (i < n) × (0 < weight (f i))
  unfolding count
  count-some zero f h = absurd (omega arith)
  count-some (suc n) f h = elim (dec_lt 0 (weight (f n))) [
    | yes here ↦ (n, omega arith, here)
    | no before ↦ let (i, lt, p) = count-some n f (omega arith) in (i, omega arith, p)
  ]

  -- A count of no weights is 0.
  pub count-eq_zero : (n : ℕ) (f : ℕ → A) → ((i : ℕ) → i < n → weight (f i) ≡ 0) → count n f ≡ 0
  unfolding count
  count-eq_zero zero f h = refl
  count-eq_zero (suc n) f h =
      omega (arith, count-eq_zero n f (λ i lt. h i (omega arith)), h n (omega arith))

pub update_self {ℓ} : {A : Type ℓ} (f : ℕ → A) (i : ℕ) (a : A) → update f i a i ≡ a
update_self f i a = ground arith

pub update_ne {ℓ} : {A : Type ℓ} (f : ℕ → A) (i j : ℕ) (a : A) → i ≢ j → update f i a j ≡ f j
update_ne f i j a h = ground arith
