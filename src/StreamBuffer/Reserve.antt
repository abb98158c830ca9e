-- ===== src/StreamBuffer/Reserve.antt =====
-- `stream_buffer::reserve_buffer` (mp/stream_buffer.h): space is made, and no data is lost.
use Prim.Native.Nat.{max}
use mpio.Prelude.{
  ℕ, ◌-◌, ◌<◌, ◌≡◌, refl, ap, ◌∙◌, List, Bool, arith, true, false, Bool-cases, inl, inr, ◌==◌, ltb,
  ◌&&◌, if◌then◌else◌,
}
use mpio.Memory.{returned, add_size, sub_size, mul_size, grow, rounds}
use mpio.Memory.Growth.{Grown, grow_total}
use mpio.Block.{sizeof_count, Heap, With, get_count}
use mpio.StreamBuffer.{
  Stream, and_unshared, expand_in_place, expand_new, expand_buffer, rewind, reserve_buffer,
}
use mpio.StreamBuffer.Valid.{IsValid, window}
use mpio.StreamBuffer.Grow.{IsSmall, Reserved, references, realloc-Reserved, malloc-Reserved}

-- The second test is made only if the first passes; the block is there.
and_unshared_lem :
    (t : Bool) (d : ℕ) (h : Heap)
    → 0 < h.count d
    → and_unshared t d h ≡ returned (t && (h.count d == 1))
unfolding get_count
and_unshared_lem true d h pos = let there : (h.count d == 0) ≡ false = ground arith in rw there
and_unshared_lem false d h pos = refl

module _ (avail : ℕ → Bool) (ample : (n : ℕ) → avail n ≡ true) (held : List ℕ) (s : Stream)
    (h : Heap) (v : IsValid held s h) (len initial : ℕ) (small : IsSmall s len initial) where
  open v use {head, order}

  counted : 0 < h.count s.buffer
  counted = ground (arith, references held s h v len s.buffer)

  expand_in_place-Reserved :
      h.count s.buffer ≡ 1 → Reserved held s h len (expand_in_place avail s len h)
  unfolding expand_in_place
  expand_in_place-Reserved alone = rw g.returns (
      realloc-Reserved held s h v len avail ample g.size alone (omega (arith, g.enough)) g.in_range)
    where
      g :
          Grown
            (mul_size (add_size s.used s.free) 2)
            (add_size len s.used)
            (grow rounds (mul_size (add_size s.used s.free) 2) (add_size len s.used))
      g = grow_total _ _ (omega (arith, head, order)) (omega arith) (omega arith)

  expand_new-Reserved : Reserved held s h len (expand_new avail s len initial h)
  unfolding expand_new
  expand_new-Reserved = rw g.returns (
      malloc-Reserved held s h v len avail ample g.size (omega (arith, g.enough, order)) g.in_range)
    where
      asked : ℕ
      asked = add_size (add_size len (sub_size s.used s.off)) sizeof_count

      g : Grown (max initial sizeof_count) asked (grow rounds (max initial sizeof_count) asked)
      g = grow_total _ _ (omega arith) (omega arith) (omega (arith, order))

  expand_buffer-Reserved : Reserved held s h len (expand_buffer avail s len initial h)
  unfolding expand_buffer
  expand_buffer-Reserved =
      rw (and_unshared_lem (s.off == sizeof_count) s.buffer h counted)
        (elim (Bool-cases ((s.off == sizeof_count) && (h.count s.buffer == 1))) [
          | inl alone ↦ rw alone (expand_in_place-Reserved (ground arith))
          | inr shared ↦ rw shared expand_new-Reserved
        ])

  -- The test of `reserve_buffer` for room, from a stream that is rewound or not.
  room-Reserved :
      Reserved held s h len
        (if ltb s.free len then expand_buffer avail s len initial h else returned (s, h))
  room-Reserved = elim (Bool-cases (ltb s.free len)) [
    | inl little ↦ rw little expand_buffer-Reserved
    | inr enough ↦ rw enough (record {
      stream = s;
      heap = h;
      returns = refl;
      valid = v;
      room = ground arith;
      same = refl;
      untouched = λ d o. refl;
      no_reuse = λ o e. omega arith;
    })
  ]

module _ (avail : ℕ → Bool) (ample : (n : ℕ) → avail n ≡ true) (held : List ℕ) (s : Stream)
    (h : Heap) (v : IsValid held s h) (len initial : ℕ) (small : IsSmall s len initial) where
  rewind-IsValid : IsValid held (rewind avail s) h
  rewind-IsValid = record {
    counts = v.counts;
    head = omega arith;
    order = omega arith;
    size = omega (arith, v.size, v.head, v.order);
  }

  rewound-Reserved :
      (o : With Stream)
      → s.used ≡ s.off
      → h.count s.buffer ≡ 1
      → Reserved held (rewind avail s) h len o
      → Reserved held s h len o
  rewound-Reserved o e alone r = record {
    stream = r.stream;
    heap = r.heap;
    returns = r.returns;
    valid = r.valid;
    room = r.room;
    same =
        let none_left : 0 ≡ s.used - s.off = omega arith in
        r.same ∙ ap (window (h.bytes s.buffer) s.off) none_left;
    untouched = r.untouched;
    no_reuse = λ o e. absurd (ground (arith, references held s h v len s.buffer));
  }

  -- `reserve_buffer` on a valid stream, below 2 ^ 61 bytes and with ample memory, returns a valid
  -- stream with room for `len` bytes and the same data; the blocks that are referenced from
  -- outside keep their bytes, and no byte of them that was in use becomes room again.
  pub reserve_buffer-Reserved : Reserved held s h len (reserve_buffer avail s len initial h)
  unfolding reserve_buffer
  reserve_buffer-Reserved =
      rw
        (and_unshared_lem (s.used == s.off) s.buffer h
          (counted avail ample held s h v len initial small))
        (elim (Bool-cases ((s.used == s.off) && (h.count s.buffer == 1))) [
          | inl alone ↦ rw alone (
              rewound-Reserved _ (ground arith) (ground arith) (
                room-Reserved avail ample held (rewind avail s) h rewind-IsValid len initial
                  (omega (arith, v.size, v.head, v.order))))
          | inr kept ↦ rw kept (room-Reserved avail ample held s h v len initial small)
        ])
