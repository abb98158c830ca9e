-- ===== src/StreamBuffer.antt =====
-- The class stream_buffer of mp/stream_buffer.h: a growing buffer of counted blocks, from which the
-- parsed data is handed out by reference.
-- `avail n` says whether the allocator gives n bytes. A `ref` is its `m_array`, a list of blocks;
-- that its `push_back` finds memory is taken for granted.
pub mod Valid
pub mod Grow
pub mod Reserve
pub mod Retain
use mpio.Prelude.{
  ℕ, zero, suc, ◌+◌, ◌-◌, ◌*◌, ◌%◌, ◌^◌, List, [], ◌∷◌, ◌++◌, Bool, true, false, ◌&&◌, ltb, leb,
  ◌==◌, if◌then◌else◌,
}
use Prim.Native.Nat.{max}
use mpio.Memory.{
  Outcome, returned, bad_alloc, fault, ◌>>=◌, add_size, sub_size, mul_size, grow, rounds,
}
use mpio.Family.{update}
use mpio.Block.{
  sizeof_count, Heap, With, init_count, incr_count, decr_count, get_count, malloc, realloc,
  decr_all,
}

-- `m_buffer` is a block; the other members are offsets and sizes in it.
pub record Stream : Type 0 where
  pub buffer : ℕ
  pub used : ℕ
  pub free : ℕ
  pub off : ℕ
  pub ref : List ℕ

abbrev pub buffer_capacity : Stream → ℕ
buffer_capacity s = s.free

unfoldable pub buffer_filled : Stream → ℕ → Stream
buffer_filled s len = record s { used = add_size s.used len; free = sub_size s.free len }

unfoldable pub data_size : Stream → ℕ
data_size s = sub_size s.used s.off

unfoldable pub data_consumed : Stream → ℕ → Stream
data_consumed s len = record s { off = add_size s.off len }

-- The operations of a `ref`.
unfoldable pub clear_ref : List ℕ → Heap → With (List ℕ)
clear_ref ref h = decr_all ref h >>= λ h'. returned ([], h')

unfoldable pub push_ref : List ℕ → ℕ → Heap → With (List ℕ)
push_ref ref d h = incr_count d h >>= λ h'. returned (ref ++ (d ∷ []), h')

abbrev pub move_ref : List ℕ → ℕ → List ℕ
move_ref ref d = ref ++ (d ∷ [])

abbrev pub swap_ref : List ℕ → List ℕ → List ℕ × List ℕ
swap_ref ref x = (x, ref)

-- The reference handed out, and the stream.
unfoldable pub retain : Stream → List ℕ × Stream
retain s = (s.ref, record s { ref = [] })

-- `*to` and the stream, from the stream and what `*to` held.
unfoldable pub retain_to : Stream → List ℕ → Heap → With (List ℕ × Stream)
retain_to s to h = push_ref s.ref s.buffer h >>= λ (pushed, h').
    clear_ref to h' >>= λ (cleared, h''). returned ((pushed, record s { ref = cleared }), h'')

-- `~stream_buffer`, and then the destructor of `m_ref`.
unfoldable pub destroy : Stream → Heap → Outcome Heap
destroy s h = decr_count s.buffer h >>= λ h'. clear_ref s.ref h' >>= λ (ref, h''). returned h''

-- `memcpy(tmp + sizeof(count_t), m_buffer + m_off, n)`
abbrev pub copy_data : ℕ → ℕ → ℕ → ℕ → Heap → Heap
copy_data tmp buffer off n h = record h {
  bytes = update h.bytes tmp (λ i.
      if leb sizeof_count i && ltb i (sizeof_count + n)
      then h.bytes buffer (off + (i - sizeof_count))
      else h.bytes tmp i);
}

-- `get_count(m_buffer) == 1`, looked at only if the first test passes
abbrev pub and_unshared : Bool → ℕ → Heap → Outcome Bool
and_unshared true d h = get_count d h >>= λ c. returned (c == 1)
and_unshared false d h = returned false

module _ (avail : ℕ → Bool) where
  unfoldable pub new : ℕ → Heap → With Stream
  new initial_buffer_size h =
      let initsz = max initial_buffer_size sizeof_count in
      malloc avail initsz h >>= λ (buffer, h'). returned (
        record {
          buffer = buffer;
          used = sizeof_count;
          free = sub_size initsz sizeof_count;
          off = sizeof_count;
          ref = [];
        },
        init_count buffer h',
      )

  -- The buffer is alone and its data begins at the head: the block grows.
  unfoldable pub expand_in_place : Stream → ℕ → Heap → With Stream
  expand_in_place s len h =
      grow rounds (mul_size (add_size s.used s.free) 2) (add_size len s.used) >>= λ next_size.
      realloc avail s.buffer next_size h >>= λ (tmp, h').
      returned (record s { buffer = tmp; free = sub_size next_size s.used }, h')

  -- The data that is not parsed yet is copied to a new block, and the old one is kept in `m_ref`.
  unfoldable pub expand_new : Stream → ℕ → ℕ → Heap → With Stream
  expand_new s len initial_buffer_size h =
      let not_used = sub_size s.used s.off in
      grow rounds (max initial_buffer_size sizeof_count)
        (add_size (add_size len not_used) sizeof_count)
      >>= λ next_size. malloc avail next_size h >>= λ (tmp, h'). returned (
        record {
          buffer = tmp;
          used = add_size not_used sizeof_count;
          free = sub_size next_size (add_size not_used sizeof_count);
          off = sizeof_count;
          ref = move_ref s.ref s.buffer;
        },
        copy_data tmp s.buffer s.off not_used (init_count tmp h'),
      )

  unfoldable pub expand_buffer : Stream → ℕ → ℕ → Heap → With Stream
  expand_buffer s len initial_buffer_size h =
      and_unshared (s.off == sizeof_count) s.buffer h >>= λ in_place.
      if in_place then expand_in_place s len h else expand_new s len initial_buffer_size h

  abbrev pub rewind : Stream → Stream
  rewind s = record s {
    used = sizeof_count;
    free = add_size s.free (sub_size s.used sizeof_count);
    off = sizeof_count;
  }

  unfoldable pub reserve_buffer : Stream → ℕ → ℕ → Heap → With Stream
  reserve_buffer s len initial_buffer_size h =
      and_unshared (s.used == s.off) s.buffer h >>= λ rewinds.
      let s' = if rewinds then rewind s else s in
      if ltb s'.free len then expand_buffer s' len initial_buffer_size h else returned (s', h)
