-- ===== src/Kernel/Bits.antt =====
-- The packing of `kernel::event` (mpsrc/wavy_kernel_epoll.h): the descriptor and the mask come back.
use mpio.Prelude.{
  ℕ, zero, suc, ◌+◌, ◌-◌, ◌*◌, ◌/◌, ◌%◌, ◌^◌, ◌≤◌, ◌<◌, ◌≡◌, refl, sym, ap, ◌∙◌, arith,
}
use Prim.Native.Nat.{bit_or, bit_and, max, min, digits, bitwise, bit_or-bitwise, bit_and-bitwise}
use native.Mathlib.Nat.{pow-suc}
use native.Mathlib.Decide.{dec_lt}
use mpio.Kernel.{ident, events, pack}

bit_or_zero : (b : ℕ) → bit_or 0 b ≡ b
bit_or_zero b = bit_or-bitwise 0 b

zero-bit_and : (b : ℕ) → bit_and 0 b ≡ 0
zero-bit_and b = bit_and-bitwise 0 b

module _ (ends : ℕ → ℕ) (digit : ℕ → ℕ → ℕ) where
  -- A count of digits to go that is not less than the number is as good as the number.
  digits-bitwise :
      (bound n a b : ℕ) → n ≤ bound → a ≤ n → digits ends digit n a b ≡ bitwise ends digit a b
  digits-bitwise bound n zero b le le' = none_left n
    where
      none_left : (m : ℕ) → digits ends digit m 0 b ≡ ends b
      none_left zero = refl
      none_left (suc m) = refl
  digits-bitwise bound zero (suc a) b le le' = absurd (omega arith)
  digits-bitwise zero (suc n) (suc a) b le le' = absurd (omega arith)
  digits-bitwise (suc bound) (suc n) (suc a) b le le' =
      ap (λ high. high * 2 + digit (suc a % 2) (b % 2))
        (digits-bitwise bound n (suc a / 2) (b / 2) (omega arith) (omega arith)
          ∙ sym (digits-bitwise bound a (suc a / 2) (b / 2) (omega arith) (omega arith)))

  -- The lowest digit, and the rest.
  bitwise-halves :
      (a b : ℕ)
      → 0 < a
      → bitwise ends digit a b ≡ bitwise ends digit (a / 2) (b / 2) * 2 + digit (a % 2) (b % 2)
  bitwise-halves zero b pos = absurd (omega arith)
  bitwise-halves (suc a) b pos =
      ap (λ high. high * 2 + digit (suc a % 2) (b % 2))
        (digits-bitwise a a (suc a / 2) (b / 2) (omega arith) (omega arith))

bit_or_step : (a b : ℕ) → bit_or a b ≡ bit_or (a / 2) (b / 2) * 2 + max (a % 2) (b % 2)
bit_or_step a b = elim (dec_lt 0 a) [
  | yes pos ↦ omega (
    arith,
    bit_or-bitwise a b,
    bit_or-bitwise (a / 2) (b / 2),
    bitwise-halves (λ r. r) max a b pos,
  )
  | no zero_a ↦
      let none : a ≡ 0 = omega arith in rw none (omega (arith, bit_or_zero b, bit_or_zero (b / 2)))
]

bit_and_step : (a b : ℕ) → bit_and a b ≡ bit_and (a / 2) (b / 2) * 2 + min (a % 2) (b % 2)
bit_and_step a b = elim (dec_lt 0 a) [
  | yes pos ↦ omega (
    arith,
    bit_and-bitwise a b,
    bit_and-bitwise (a / 2) (b / 2),
    bitwise-halves (λ r. zero) min a b pos,
  )
  | no zero_a ↦
      let none : a ≡ 0 = omega arith in
      rw none (omega (arith, zero-bit_and b, zero-bit_and (b / 2)))
]

-- A number without digits.
bit_and_no_digits : (bound a : ℕ) → a ≤ bound → bit_and a 0 ≡ 0
bit_and_no_digits bound zero le = zero-bit_and 0
bit_and_no_digits zero (suc a) le = absurd (omega arith)
bit_and_no_digits (suc bound) (suc a) le =
    omega (arith, bit_and_step (suc a) 0, bit_and_no_digits bound (suc a / 2) (omega arith))

-- Digits that do not meet are added.
bit_or_high : (k a b : ℕ) → a < 2 ^ k → bit_or a (b * 2 ^ k) ≡ a + b * 2 ^ k
bit_or_high zero a b lt =
    let none : a ≡ 0 = omega arith in rw none (bit_or_zero (b * 1) ∙ omega arith)
bit_or_high (suc k) a b lt =
    let double : b * 2 ^ suc k ≡ b * 2 ^ k * 2 = rw (pow-suc 2 k) (omega arith) in
    let half : b * 2 ^ k * 2 / 2 ≡ b * 2 ^ k = omega arith in
    let rest : bit_or (a / 2) (b * 2 ^ k) ≡ a / 2 + b * 2 ^ k =
      bit_or_high k (a / 2) b (omega (arith, pow-suc 2 k)) in
    rw double (bit_or_step a (b * 2 ^ k * 2) ∙ rw (half, rest) (omega arith))

-- k ones keep the k low digits.
bit_and_low : (k a b : ℕ) → a < 2 ^ k → bit_and (a + b * 2 ^ k) (2 ^ k - 1) ≡ a
bit_and_low zero a b lt = omega (arith, bit_and_no_digits (a + b * 1) (a + b * 1) (omega arith))
bit_and_low (suc k) a b lt =
    let double : b * 2 ^ suc k ≡ b * 2 ^ k * 2 = rw (pow-suc 2 k) (omega arith) in
    let rest : bit_and (a / 2 + b * 2 ^ k) (2 ^ k - 1) ≡ a / 2 =
      bit_and_low k (a / 2) b (omega (arith, pow-suc 2 k)) in
    let half : (a + b * 2 ^ k * 2) / 2 ≡ a / 2 + b * 2 ^ k = omega arith in
    let ones : (2 ^ suc k - 1) / 2 ≡ 2 ^ k - 1 = omega (arith, pow-suc 2 k) in
    let odd : (2 ^ suc k - 1) % 2 ≡ 1 = omega (arith, pow-suc 2 k) in
    rw double
      (bit_and_step (a + b * 2 ^ k * 2) (2 ^ suc k - 1) ∙ rw (half, ones, odd, rest) (omega arith))

-- The descriptor and the mask that `add_fd` packs come back from the event.
pub ident-events-pack :
    (fd evs : ℕ)
    → fd < 2 ^ 32
    → evs < 2 ^ 32
    → (ident (record { udata = pack fd evs }) ≡ fd)
      × (events (record { udata = pack fd evs }) ≡ evs)
unfolding ident events pack
ident-events-pack fd evs f e =
    let fits : evs * 2 ^ 32 % 2 ^ 64 ≡ evs * 2 ^ 32 = omega arith in
    rw (fits, bit_or_high 32 fd evs f) (bit_and_low 32 fd evs f, omega arith)

-- The lower half of any data.
pub ident-mod : (u : ℕ) → ident (record { udata = u }) ≡ u % 2 ^ 32
unfolding ident
ident-mod u =
    let halves : u ≡ u % 2 ^ 32 + u / 2 ^ 32 * 2 ^ 32 = omega arith in
    ap (λ k. bit_and k 0xffffffff) halves ∙ bit_and_low 32 (u % 2 ^ 32) (u / 2 ^ 32) (omega arith)
