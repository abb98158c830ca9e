-- ===== src/SharedBuffer/Reserve.antt =====
-- `shared_buffer::reserve_buffer` (mp/shared_buffer.h): space is made, and what is held stays.
use Prim.Native.Nat.{max}
use mpio.Prelude.{
  ℕ, ◌+◌, ◌^◌, ◌≤◌, ◌<◌, ◌≡◌, refl, ap, List, ◌∷◌, Bool, arith, true, false, Bool-cases, inl, inr,
  ◌==◌, ltb, ◌&&◌, if◌then◌else◌,
}
use mpio.Memory.{returned, add_size, sub_size, mul_size, grow, rounds}
use mpio.Memory.Growth.{Grown, grow_total}
use mpio.Block.{sizeof_count, Heap, With, init_count, decr_count, get_count, malloc, realloc}
use mpio.Block.Occurs.{occurs, Counts, Recounted, decr_count-Recounted}
use mpio.SharedBuffer.{
  Shared, and_unshared, expand_in_place, expand_new, expand_buffer, rewind, reserve_buffer,
}
use mpio.SharedBuffer.Held.{IsValid}

-- Below these sizes no arithmetic wraps.
abbrev pub IsSmall : Shared → ℕ → ℕ → Type 0
IsSmall s len initial = (s.used + s.free < 2 ^ 61) × (len < 2 ^ 61) × (initial < 2 ^ 61)

-- What `reserve_buffer` returns: a valid buffer with room for `len` bytes. The blocks that are
-- referenced from outside keep their bytes, and where the block of the buffer is one of them and
-- stays, the room begins no earlier than before.
pub record Reserved (held : List ℕ) (s : Shared) (h : Heap) (len : ℕ) (o : With Shared)
    : Type 0 where
  pub buffer : Shared
  pub heap : Heap
  pub returns : o ≡ returned (buffer, heap)
  pub valid : IsValid held buffer heap
  pub room : len ≤ buffer.free
  pub untouched : (d : ℕ) → 0 < occurs d held → heap.bytes d ≡ h.bytes d
  pub no_reuse : 0 < occurs s.buffer held → buffer.buffer ≡ s.buffer → s.used ≤ buffer.used

module _ (avail : ℕ → Bool) (ample : (n : ℕ) → avail n ≡ true) (held : List ℕ) (s : Shared)
    (h : Heap) (v : IsValid held s h) (len initial : ℕ) (small : IsSmall s len initial) where
  open v use {head, size}

  references : (d : ℕ) → h.count d ≡ (if s.buffer == d then 1 else 0) + occurs d held
  references d = v.counts.exact d

  -- A block that is referenced is not the next one.
  next-ne : (d : ℕ) → 0 < occurs d held → (h.next == d) ≡ false
  next-ne d o = ground (arith, references d, v.counts.fresh d)

  next-ne-buffer : (h.next == s.buffer) ≡ false
  next-ne-buffer = ground (arith, references s.buffer, v.counts.fresh s.buffer)

  expand_in_place-Reserved :
      h.count s.buffer ≡ 1 → Reserved held s h len (expand_in_place avail s len h)
  unfolding expand_in_place realloc
  expand_in_place-Reserved alone = rw g.returns (
      simp (ample g.size) (record {
        buffer = record s { buffer = h.next; free = sub_size g.size s.used };
        heap = _;
        returns = refl;
        valid = record {
          counts = record {
            exact = λ d. ground (
              arith,
              references d,
              references s.buffer,
              v.counts.fresh d,
              v.counts.fresh s.buffer,
            );
            fresh = λ d le. ground (arith, v.counts.fresh d);
          };
          head = head;
          size = omega (arith, g.in_range, g.enough);
        };
        room = omega (arith, g.in_range, g.enough);
        untouched = λ d o. rw (next-ne d o);
        no_reuse = λ o e. omega arith;
      }))
    where
      g :
          Grown
            (mul_size (add_size s.used s.free) 2)
            (add_size len s.used)
            (grow rounds (mul_size (add_size s.used s.free) 2) (add_size len s.used))
      g = grow_total _ _ (omega (arith, head)) (omega arith) (omega arith)

  expand_new-Reserved : Reserved held s h len (expand_new avail s len initial h)
  unfolding expand_new malloc init_count
  expand_new-Reserved = rw g.returns (
      simp (ample g.size) (
        rw dropped.returns (record {
          buffer = record {
            buffer = h.next;
            used = sizeof_count;
            free = sub_size g.size sizeof_count;
          };
          heap = dropped.heap;
          returns = refl;
          valid = record {
            counts = dropped.counts;
            head = omega arith;
            size = omega (arith, g.in_range, g.enough);
          };
          room = omega (arith, g.in_range, g.enough);
          untouched = λ d o. ap (λ b. b d) dropped.same;
          no_reuse = λ o e. ground (arith, next-ne-buffer);
        })))
    where
      g :
          Grown
            (max initial sizeof_count)
            (add_size len sizeof_count)
            (grow rounds (max initial sizeof_count) (add_size len sizeof_count))
      g = grow_total _ _ (omega arith) (omega arith) (omega arith)

      start : Heap
      start = init_count h.next (record h { next = h.next + 1 })

      counted : Counts (s.buffer ∷ h.next ∷ held) start
      counted = record {
        exact = λ d. ground (arith, references d, v.counts.fresh d);
        fresh = λ d le. ground (arith, v.counts.fresh d);
      }

      dropped : Recounted (h.next ∷ held) start (decr_count s.buffer start)
      dropped = decr_count-Recounted s.buffer (h.next ∷ held) start counted

  counted : 0 < h.count s.buffer
  counted = ground (arith, references s.buffer)

  -- The second test is made only if the first passes; the block is there.
  and_unshared_lem :
      (t : Bool) → and_unshared t s.buffer h ≡ returned (t && (h.count s.buffer == 1))
  unfolding get_count
  and_unshared_lem true =
      let there : (h.count s.buffer == 0) ≡ false = ground (arith, counted) in rw there
  and_unshared_lem false = refl

  expand_buffer-Reserved : Reserved held s h len (expand_buffer avail s len initial h)
  unfolding expand_buffer
  expand_buffer-Reserved =
      rw (and_unshared_lem (s.used == sizeof_count))
        (elim (Bool-cases ((s.used == sizeof_count) && (h.count s.buffer == 1))) [
          | inl alone ↦ rw alone (expand_in_place-Reserved (ground arith))
          | inr shared ↦ rw shared expand_new-Reserved
        ])

  -- The test of `reserve_buffer` for room, from a buffer that is rewound or not.
  room-Reserved :
      Reserved held s h len
        (if ltb s.free len then expand_buffer avail s len initial h else returned (s, h))
  room-Reserved = elim (Bool-cases (ltb s.free len)) [
    | inl little ↦ rw little expand_buffer-Reserved
    | inr enough ↦ rw enough (record {
      buffer = s;
      heap = h;
      returns = refl;
      valid = v;
      room = ground arith;
      untouched = λ d o. refl;
      no_reuse = λ o e. omega arith;
    })
  ]

module _ (avail : ℕ → Bool) (ample : (n : ℕ) → avail n ≡ true) (held : List ℕ) (s : Shared)
    (h : Heap) (v : IsValid held s h) (len initial : ℕ) (small : IsSmall s len initial) where
  rewind-IsValid : IsValid held (rewind avail s) h
  rewind-IsValid = record {
    counts = v.counts;
    head = omega arith;
    size = omega (arith, v.size, v.head);
  }

  -- `shared_buffer::reserve_buffer` on a valid buffer, below 2 ^ 61 bytes and with ample memory,
  -- returns a valid buffer with room for `len` bytes; the blocks that are referenced from outside
  -- keep their bytes, and no byte of them that was in use becomes room again.
  pub reserve_buffer-Kept : Reserved held s h len (reserve_buffer avail s len initial h)
  unfolding reserve_buffer get_count
  reserve_buffer-Kept =
      let there : (h.count s.buffer == 0) ≡ false = ground (arith, v.counts.exact s.buffer) in
      rw there (elim (Bool-cases (h.count s.buffer == 1)) [
        | inl alone ↦ rw alone (
            let r : Reserved held (rewind avail s) h len _ =
              room-Reserved avail ample held (rewind avail s) h rewind-IsValid len initial
                (omega (arith, v.size, v.head)) in
            record {
              buffer = r.buffer;
              heap = r.heap;
              returns = r.returns;
              valid = r.valid;
              room = r.room;
              untouched = r.untouched;
              no_reuse = λ o e. absurd (ground (arith, v.counts.exact s.buffer));
            })
        | inr kept ↦ rw kept (room-Reserved avail ample held s h v len initial small)
      ])
