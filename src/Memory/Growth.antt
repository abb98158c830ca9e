-- ===== src/Memory/Growth.antt =====
-- When the doubling loop of the buffers ends, and what it ends with.
use native.Mathlib.Nat.{pow-suc, pow-le-pow_right}
use native.Mathlib.Decide.{dec_lt}
use mpio.Prelude.{
  ℕ, zero, suc, ◌*◌, ◌^◌, ◌≤◌, ◌<◌, ◌≡◌, refl, Bool-cases, inl, inr, true, ltb, lt→ltb, arith,
}
use mpio.Memory.{Outcome, returned, out_of_fuel, mul_size, grow, rounds}

-- What the loop returns from `nsize` when `reqsz` is asked for.
pub record Grown (nsize reqsz : ℕ) (o : Outcome ℕ) : Type 0 where
  pub size : ℕ
  pub returns : o ≡ returned size
  pub enough : reqsz ≤ size
  pub not_less : nsize ≤ size
  pub in_range : size < 2 ^ 64
  pub doublings : ℕ
  pub exact : size ≡ nsize * 2 ^ doublings

grow-Grown :
    (fuel nsize reqsz : ℕ)
    → 0 < nsize
    → nsize < 2 ^ 64
    → reqsz ≤ 2 ^ 63
    → reqsz ≤ nsize * 2 ^ fuel
    → Grown nsize reqsz (grow (suc fuel) nsize reqsz)
unfolding grow
grow-Grown zero nsize reqsz p r small h = elim (Bool-cases (ltb nsize reqsz)) [
  | inl less ↦ absurd (ground arith)
  | inr done ↦ rw done (record {
    size = nsize;
    returns = refl;
    enough = ground arith;
    not_less = omega arith;
    in_range = r;
    doublings = 0;
    exact = omega arith;
  })
]
grow-Grown (suc fuel) nsize reqsz p r small h = elim (Bool-cases (ltb nsize reqsz)) [
  | inl less ↦
      let no_wrap : mul_size nsize 2 ≡ nsize * 2 = ground arith in
      let more : reqsz ≤ nsize * (2 ^ fuel * 2) = rw (pow-suc 2 fuel) at h in
      let g : Grown (nsize * 2) reqsz (grow (suc fuel) (nsize * 2) reqsz) =
        grow-Grown fuel (nsize * 2) reqsz (omega arith) (ground arith) small (omega arith) in
      rw (less, no_wrap)
        (record {
          size = g.size;
          returns = g.returns;
          enough = g.enough;
          not_less = omega (arith, g.not_less);
          in_range = g.in_range;
          doublings = suc g.doublings;
          exact = rw (pow-suc 2 g.doublings) (omega (arith, g.exact));
        })
  | inr done ↦ rw done (record {
    size = nsize;
    returns = refl;
    enough = ground arith;
    not_less = omega arith;
    in_range = r;
    doublings = 0;
    exact = omega arith;
  })
]

-- From a size that is not 0, the doubling loop ends within its rounds for any request of at most
-- 2 ^ 63 bytes, with at least the request, and a size below 2 ^ 64 that is the first one times a
-- power of 2: no doubling wraps.
pub grow_total :
    (nsize reqsz : ℕ)
    → 0 < nsize
    → nsize < 2 ^ 64
    → reqsz ≤ 2 ^ 63
    → Grown nsize reqsz (grow rounds nsize reqsz)
grow_total nsize reqsz p r small = grow-Grown 64 nsize reqsz p r small (omega arith)

grow-zero : (fuel reqsz : ℕ) → 0 < reqsz → grow fuel 0 reqsz ≡ out_of_fuel
unfolding grow
grow-zero zero reqsz h = refl
grow-zero (suc fuel) reqsz h = elim (Bool-cases (ltb 0 reqsz)) [
  | inl less ↦ rw less (grow-zero fuel reqsz h)
  | inr done ↦ absurd (ground arith)
]

-- A request above 2 ^ 63 bytes is never met from a power of 2: the size reaches 2 ^ 63, the next
-- doubling makes it 0, and the loop runs on for ever.
pub grow_diverges :
    (fuel k reqsz : ℕ) → k ≤ 63 → 2 ^ 63 < reqsz → grow fuel (2 ^ k) reqsz ≡ out_of_fuel
unfolding grow
grow_diverges zero k reqsz h big = refl
grow_diverges (suc fuel) k reqsz h big = rw below (elim (dec_lt k 63) [
  | yes lower ↦ rw (doubled lower) (grow_diverges fuel (suc k) reqsz lower big)
  | no top ↦ rw (wrapped (omega arith)) (grow-zero fuel reqsz (omega arith))
])
  where
    top_pow : 2 ^ k ≤ 2 ^ 63
    top_pow = pow-le-pow_right (omega arith) h

    below : ltb (2 ^ k) reqsz ≡ true
    below = lt→ltb (2 ^ k) reqsz (omega (arith, top_pow))

    doubled : k < 63 → mul_size (2 ^ k) 2 ≡ 2 ^ suc k
    doubled lower =
        omega
          (arith, pow-suc 2 k, pow-le-pow_right {n = 2} (omega arith) {i = suc k} {j = 63} lower)

    wrapped : k ≡ 63 → mul_size (2 ^ k) 2 ≡ 0
    wrapped e = rw e
