-- ===== src/SharedBuffer/Held.antt =====
-- `hold` and `reset` of mp/shared_buffer.h: the range that a reference stands for, and its count.
use mpio.Prelude.{ℕ, ◌+◌, ◌^◌, ◌≤◌, ◌<◌, ◌≡◌, refl, ◌∙◌, List, [], ◌∷◌, ◌++◌, none, some, arith}
use Prim.Native.Nat.{min}
use mpio.Memory.{returned, ◌>>=◌}
use mpio.Block.{sizeof_count, Heap, With, incr_count, decr_count}
use mpio.Block.Occurs.{occurs, Counts, Recounted, decr_count-Recounted, incr_count-Recounted}
use mpio.SharedBuffer.{Shared, Ref, new_ref, clear_ref, reset_ref, hold}

-- `held` are the references outside the buffer.
pub record IsValid (held : List ℕ) (s : Shared) (h : Heap) : Type 0 where
  pub counts : Counts (s.buffer ∷ held) h
  pub head : sizeof_count ≤ s.used
  pub size : s.used + s.free < 2 ^ 64

-- What `hold` returns: a reference to the block, counted, and a buffer whose room begins `n` bytes on.
pub record Held (held : List ℕ) (s : Shared) (n : ℕ) (h : Heap) (o : With (Ref × Shared))
    : Type 0 where
  pub buffer : Shared
  pub heap : Heap
  pub returns : o ≡ returned ((some s.buffer, buffer), heap)
  pub valid : IsValid (s.buffer ∷ held) buffer heap
  pub block : buffer.buffer ≡ s.buffer
  pub begins : buffer.used ≡ s.used + n
  pub left : buffer.free + n ≡ s.free
  pub same : heap.bytes ≡ h.bytes

-- `hold` takes the bytes asked for, or all there are where there are fewer, and does not fault where
-- one more reference fits the count.
pub hold-Held :
    (held : List ℕ) (s : Shared) (len : ℕ) (h : Heap)
    → IsValid held s h
    → h.count s.buffer + 1 < 2 ^ 32
    → Held held s (min len s.free) h (hold s len h)
unfolding hold new_ref
hold-Held held s len h v fits = rw (more.returns) (record {
  buffer = _;
  heap = more.heap;
  returns = refl;
  valid = record {
    counts = more.counts;
    head = ground (arith, v.head, v.size);
    size = ground (arith, v.head, v.size);
  };
  block = refl;
  begins = ground (arith, v.head, v.size);
  left = ground (arith, v.head, v.size);
  same = more.same;
})
  where
    pos : 0 < h.count s.buffer
    pos = ground (arith, v.counts.exact s.buffer)

    more : Recounted (s.buffer ∷ s.buffer ∷ held) h (incr_count s.buffer h)
    more = incr_count-Recounted s.buffer (s.buffer ∷ held) h v.counts pos fits

-- The references that a `ref` is.
abbrev pub listed : Ref → List ℕ
listed none = []
listed (some d) = d ∷ []

-- `reset` of a counted reference to a block that stays counted drops the old one and counts the new.
pub reset_ref-Recounted :
    (r : Ref) (d : ℕ) (refs : List ℕ) (h : Heap)
    → Counts (listed r ++ refs) h
    → 0 < occurs d refs
    → occurs d refs + 1 < 2 ^ 32
    → Recounted (d ∷ refs) h (reset_ref r d h >>= λ (r', h'). returned h')
unfolding reset_ref clear_ref
reset_ref-Recounted none d refs h c pos fits =
    let more : Recounted (d ∷ refs) h (incr_count d h) =
      incr_count-Recounted d refs h c (omega (arith, c.exact d)) (omega (arith, c.exact d)) in
    rw more.returns (record {
      heap = more.heap;
      returns = refl;
      counts = more.counts;
      same = more.same;
      given = more.given;
    })
reset_ref-Recounted (some e) d refs h c pos fits =
    let less : Recounted refs h (decr_count e h) = decr_count-Recounted e refs h c in
    let more : Recounted (d ∷ refs) less.heap (incr_count d less.heap) =
      incr_count-Recounted d refs less.heap less.counts (omega (arith, less.counts.exact d))
        (omega (arith, less.counts.exact d)) in
    rw (less.returns, more.returns)
      (record {
        heap = more.heap;
        returns = refl;
        counts = more.counts;
        same = more.same ∙ less.same;
        given = more.given ∙ less.given;
      })
