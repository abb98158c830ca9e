-- ===== src/Tests/Blocks.antt =====
-- The theorems on mp/stream_buffer.h and mp/shared_buffer.h at small heaps.
use mpio.Prelude.{ℕ, ◌+◌, ◌^◌, ◌≡◌, refl, [], ◌∷◌, Bool, true, arith, ◌==◌, if◌then◌else◌}
use mpio.Memory.{out_of_fuel, grow, rounds}
use mpio.Memory.Growth.{Grown, grow_total, grow_diverges}
use mpio.Block.{Heap}
use mpio.Block.Occurs.{Counts, Recounted}
use mpio.StreamBuffer.{Stream, retain, retain_to, buffer_filled, data_consumed, data_size}
use mpio.StreamBuffer.Valid.{IsValid}
use mpio.StreamBuffer.Grow.{Reserved}
use mpio.StreamBuffer.Reserve.{reserve_buffer-Reserved}
use mpio.StreamBuffer.Retain.{Retained, retain_to-Retained, destroy-Recounted}
use mpio.SharedBuffer.{Shared, reset_ref}
use mpio.SharedBuffer.Held.{Held, hold-Held, reset_ref-Recounted}
use mpio.SharedBuffer.Reserve.{reserve_buffer-Kept}

abbrev any_size : ℕ → Bool
any_size n = true

-- Block 0 is referenced by the buffer and by its `m_ref`, block 1 from outside.
abbrev two_blocks : Heap
two_blocks = record {
  next = 2;
  count = λ d. if d == 0 then 2 else if d == 1 then 1 else 0;
  bytes = λ d i. i;
}

abbrev parsed : Stream
parsed = record { buffer = 0; used = 20; free = 4; off = 10; ref = 0 ∷ [] }

parsed-IsValid : IsValid (1 ∷ []) parsed two_blocks
parsed-IsValid = record {
  counts = record { exact = λ d. ground arith; fresh = λ d le. ground arith };
  head = omega arith;
  order = omega arith;
  size = omega arith;
}

grow_total_example : Grown 8 100 (grow rounds 8 100)
grow_total_example = grow_total 8 100 (omega arith) (omega arith) (omega arith)

grow_diverges_example : grow 1000 (2 ^ 3) (2 ^ 63 + 1) ≡ out_of_fuel
grow_diverges_example = grow_diverges 1000 3 (2 ^ 63 + 1) (omega arith) (omega arith)

reserve_buffer-Reserved_example :
    Reserved
      (1 ∷ [])
      parsed
      two_blocks
      100
      (mpio.StreamBuffer.reserve_buffer any_size parsed 100 64 two_blocks)
reserve_buffer-Reserved_example =
    reserve_buffer-Reserved any_size (λ n. refl) (1 ∷ []) parsed two_blocks parsed-IsValid 100 64
      (omega arith, omega arith, omega arith)

retain_to-Retained_example : Retained [] parsed two_blocks (retain_to parsed (1 ∷ []) two_blocks)
retain_to-Retained_example =
    retain_to-Retained (1 ∷ []) [] parsed two_blocks parsed-IsValid (omega arith)

abbrev one_block : Heap
one_block = record { next = 1; count = λ d. if d == 0 then 2 else 0; bytes = λ d i. i }

one_block-Counts : Counts (0 ∷ 0 ∷ []) one_block
one_block-Counts = record { exact = λ d. ground arith; fresh = λ d le. ground arith }

destroy-Recounted_example : Recounted [] one_block (mpio.StreamBuffer.destroy parsed one_block)
destroy-Recounted_example = destroy-Recounted parsed one_block (record {
  counts = one_block-Counts;
  head = omega arith;
  order = omega arith;
  size = omega arith;
})

-- The buffer and one reference to its block.
abbrev shared : Shared
shared = record { buffer = 0; used = 20; free = 4 }

shared-IsValid : mpio.SharedBuffer.Held.IsValid (0 ∷ []) shared one_block
shared-IsValid = record { counts = one_block-Counts; head = omega arith; size = omega arith }

reserve_buffer-Kept_example :
    mpio.SharedBuffer.Reserve.Reserved
      (0 ∷ [])
      shared
      one_block
      100
      (mpio.SharedBuffer.reserve_buffer any_size shared 100 64 one_block)
reserve_buffer-Kept_example =
    reserve_buffer-Kept any_size (λ n. refl) (0 ∷ []) shared one_block shared-IsValid 100 64
      (omega arith, omega arith, omega arith)
