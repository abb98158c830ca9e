-- ===== src/Memory.antt =====
-- size_t arithmetic, allocation and the doubling loop that the buffers share: `xfer::reserve` of
-- mpsrc/wavy_out.cc, `expand_buffer` of mp/stream_buffer.h and mp/shared_buffer.h.
pub mod Growth
use mpio.Prelude.{ℕ, zero, suc, ◌+◌, ◌-◌, ◌*◌, ◌%◌, ◌^◌, Bool, true, false, ltb, if◌then◌else◌}

-- What a routine that allocates does: it returns, it throws std::bad_alloc, it has not returned within
-- the rounds that it was given, or it touches memory that is not there.
pub data Outcome {ℓ} (A : Type ℓ) : Type ℓ where
  returned : A → Outcome A
  bad_alloc : Outcome A
  out_of_fuel : Outcome A
  fault : Outcome A

infixl 5 ◌>>=◌
abbrev pub ◌>>=◌ {ℓ κ} : {A : Type ℓ} {B : Type κ} → Outcome A → (A → Outcome B) → Outcome B
returned a >>= f = f a
bad_alloc >>= f = bad_alloc
out_of_fuel >>= f = out_of_fuel
fault >>= f = fault

-- size_t is 64 bits wide.
abbrev pub add_size : ℕ → ℕ → ℕ
add_size a b = (a + b) % 2 ^ 64

abbrev pub sub_size : ℕ → ℕ → ℕ
sub_size a b = (a + 2 ^ 64 - b) % 2 ^ 64

abbrev pub mul_size : ℕ → ℕ → ℕ
mul_size a b = a * b % 2 ^ 64

-- `while(nsize < reqsz) { nsize *= 2; }`
unfoldable pub grow : ℕ → ℕ → ℕ → Outcome ℕ
grow zero nsize reqsz = out_of_fuel
grow (suc fuel) nsize reqsz =
    let rest = grow fuel (mul_size nsize 2) reqsz in
    if ltb nsize reqsz then rest else returned nsize

-- A size that is not 0 reaches 2 ^ 64 within 64 doublings.
abbrev pub rounds : ℕ
rounds = 65
