-- ===== src/Block.antt =====
-- Counted blocks of memory: `init_count`, `incr_count`, `decr_count` and `get_count` of
-- mp/stream_buffer.h and mp/shared_buffer.h over malloc, realloc and free.
-- A block is named by a number that is never given twice. Its count is 0 while it is not allocated;
-- to touch such a block is a fault. A count_t is an unsigned int of 4 bytes at the head of its block.
pub mod Occurs
use mpio.Prelude.{ℕ, zero, suc, ◌+◌, ◌-◌, ◌%◌, ◌^◌, List, [], ◌∷◌, Bool, ◌==◌, ltb, if◌then◌else◌}
use mpio.Memory.{Outcome, returned, bad_alloc, fault, ◌>>=◌}
use mpio.Family.{update}

abbrev pub sizeof_count : ℕ
sizeof_count = 4

-- `bytes d` is the memory of block d by offset.
pub record Heap : Type 0 where
  pub next : ℕ
  pub count : ℕ → ℕ
  pub bytes : ℕ → ℕ → ℕ

-- The heap that a routine leaves, and its result.
abbrev pub With {ℓ} : Type ℓ → Type ℓ
With A = Outcome (A × Heap)

unfoldable pub init_count : ℕ → Heap → Heap
init_count d h = record h { count = update h.count d 1 }

unfoldable pub incr_count : ℕ → Heap → Outcome Heap
incr_count d h =
    if h.count d == 0
    then fault
    else returned (record h { count = update h.count d ((h.count d + 1) % 2 ^ 32) })

-- A count that falls to 0 frees the block.
unfoldable pub decr_count : ℕ → Heap → Outcome Heap
decr_count d h =
    if h.count d == 0
    then fault
    else returned (record h { count = update h.count d (h.count d - 1) })

unfoldable pub get_count : ℕ → Heap → Outcome ℕ
get_count d h = if h.count d == 0 then fault else returned (h.count d)

module _ (avail : ℕ → Bool) where
  -- A new block; the count is not set yet.
  unfoldable pub malloc : ℕ → Heap → Outcome (ℕ × Heap)
  malloc size h =
      if avail size then returned (h.next, record h { next = h.next + 1 }) else bad_alloc

  -- The block moves, with its count and its content; without memory it stays.
  unfoldable pub realloc : ℕ → ℕ → Heap → Outcome (ℕ × Heap)
  realloc d size h =
      if avail size
      then returned (
        h.next,
        record {
          next = h.next + 1;
          count = update (update h.count h.next (h.count d)) d 0;
          bytes = update h.bytes h.next (h.bytes d);
        },
      )
      else bad_alloc

-- `std::for_each` with `each_decr`
unfoldable pub decr_all : List ℕ → Heap → Outcome Heap
decr_all [] h = returned h
decr_all (d ∷ ds) h = decr_count d h >>= λ h'. decr_all ds h'
