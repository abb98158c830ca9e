-- ===== src/SharedBuffer.antt =====
-- The class shared_buffer of mp/shared_buffer.h: a buffer of counted blocks, of which ranges are held.
-- `avail n` says whether the allocator gives n bytes. A `ref` is its pointer `m`, where NULL is none.
pub mod Held
pub mod Reserve
use mpio.Prelude.{
  ℕ, ◌+◌, ◌-◌, ◌%◌, ◌^◌, Option, none, some, Bool, true, false, ltb, ◌==◌, if◌then◌else◌,
}
use Prim.Native.Nat.{max}
use mpio.Memory.{Outcome, returned, fault, ◌>>=◌, add_size, sub_size, mul_size, grow, rounds}
use mpio.Block.{
  sizeof_count, Heap, With, init_count, incr_count, decr_count, get_count, malloc, realloc,
}

pub record Shared : Type 0 where
  pub buffer : ℕ
  pub used : ℕ
  pub free : ℕ

abbrev pub Ref : Type 0
Ref = Option ℕ

-- The constructor from a pointer, which counts it.
unfoldable pub new_ref : ℕ → Heap → With Ref
new_ref d h = incr_count d h >>= λ h'. returned (some d, h')

-- The copy constructor; it counts the pointer, also where that is NULL.
unfoldable pub copy_ref : Ref → Heap → With Ref
copy_ref none h = fault
copy_ref (some d) h = incr_count d h >>= λ h'. returned (some d, h')

unfoldable pub clear_ref : Ref → Heap → With Ref
clear_ref none h = returned (none, h)
clear_ref (some d) h = decr_count d h >>= λ h'. returned (none, h')

unfoldable pub reset_ref : Ref → ℕ → Heap → With Ref
reset_ref r d h =
    clear_ref r h >>= λ (cleared, h'). incr_count d h' >>= λ h''. returned (some d, h'')

abbrev pub swap_ref : Ref → Ref → Ref × Ref
swap_ref r x = (x, r)

abbrev pub buffer_capacity : Shared → ℕ
buffer_capacity s = s.free

unfoldable pub destroy : Shared → Heap → Outcome Heap
destroy s h = decr_count s.buffer h

-- `skip`, and what `hold` does before it makes the reference.
unfoldable pub skip : Shared → ℕ → Shared
skip s len =
    let n = if ltb s.free len then s.free else len in
    record s { used = add_size s.used n; free = sub_size s.free n }

unfoldable pub hold : Shared → ℕ → Heap → With (Ref × Shared)
hold s len h =
    let n = if ltb s.free len then s.free else len in
    let s' = record s { used = add_size s.used n; free = sub_size s.free n } in
    new_ref s'.buffer h >>= λ (r, h'). returned ((r, s'), h')

-- `get_count(m_buffer) == 1`, looked at only if the first test passes
abbrev pub and_unshared : Bool → ℕ → Heap → Outcome Bool
and_unshared true d h = get_count d h >>= λ c. returned (c == 1)
and_unshared false d h = returned false

module _ (avail : ℕ → Bool) where
  unfoldable pub new : ℕ → Heap → With Shared
  new init_size h =
      let initsz = max init_size sizeof_count in
      malloc avail initsz h >>= λ (buffer, h'). returned (
        record { buffer = buffer; used = sizeof_count; free = sub_size initsz sizeof_count },
        init_count buffer h',
      )

  unfoldable pub expand_in_place : Shared → ℕ → Heap → With Shared
  expand_in_place s len h =
      grow rounds (mul_size (add_size s.used s.free) 2) (add_size len s.used) >>= λ next_size.
      realloc avail s.buffer next_size h >>= λ (tmp, h').
      returned (record s { buffer = tmp; free = sub_size next_size s.used }, h')

  -- A new block in place of the old one, whose references outside keep it.
  unfoldable pub expand_new : Shared → ℕ → ℕ → Heap → With Shared
  expand_new s len init_size h =
      grow rounds (max init_size sizeof_count) (add_size len sizeof_count) >>= λ next_size.
      malloc avail next_size h >>= λ (tmp, h'). decr_count s.buffer (init_count tmp h') >>= λ h''.
      returned
        (record { buffer = tmp; used = sizeof_count; free = sub_size next_size sizeof_count }, h'')

  unfoldable pub expand_buffer : Shared → ℕ → ℕ → Heap → With Shared
  expand_buffer s len init_size h = and_unshared (s.used == sizeof_count) s.buffer h >>= λ in_place.
      if in_place then expand_in_place s len h else expand_new s len init_size h

  abbrev pub rewind : Shared → Shared
  rewind s = record s { used = sizeof_count; free = add_size s.free (sub_size s.used sizeof_count) }

  unfoldable pub reserve_buffer : Shared → ℕ → ℕ → Heap → With Shared
  reserve_buffer s len init_size h = get_count s.buffer h >>= λ c.
      let s' = if c == 1 then rewind s else s in
      if ltb s'.free len then expand_buffer s' len init_size h else returned (s', h)
