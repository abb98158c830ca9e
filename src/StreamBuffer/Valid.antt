-- ===== src/StreamBuffer/Valid.antt =====
-- The invariant of mp/stream_buffer.h: offsets in order, and every block counted by its references.
use Prim.Native.Nat.{max}
use mpio.Prelude.{
  ℕ, zero, suc, ◌+◌, ◌-◌, ◌^◌, ◌≤◌, ◌<◌, ◌≡◌, refl, List, [], ◌∷◌, ◌++◌, Bool, arith, true,
}
use mpio.Memory.{returned}
use mpio.Block.{sizeof_count, Heap, With, init_count, malloc}
use mpio.Block.Occurs.{Counts}
use mpio.StreamBuffer.{Stream, new, buffer_filled, data_size, data_consumed}

-- `held` are the references outside the stream.
pub record IsValid (held : List ℕ) (s : Stream) (h : Heap) : Type 0 where
  pub counts : Counts (s.buffer ∷ s.ref ++ held) h
  pub head : sizeof_count ≤ s.off
  pub order : s.off ≤ s.used
  pub size : s.used + s.free < 2 ^ 64

abbrev pub window : (ℕ → ℕ) → ℕ → ℕ → List ℕ
window f i zero = []
window f i (suc n) = f i ∷ window f (i + 1) n

-- The bytes from `data()` on, `data_size()` of them.
abbrev pub contents : Stream → Heap → List ℕ
contents s h = window (h.bytes s.buffer) s.off (s.used - s.off)

-- A stream that the constructor returns.
pub record Created (held : List ℕ) (o : With Stream) : Type 0 where
  pub stream : Stream
  pub heap : Heap
  pub returns : o ≡ returned (stream, heap)
  pub valid : IsValid held stream heap
  pub no_data : contents stream heap ≡ []

-- A new stream is valid and has no data, where its size is a size_t and memory is ample.
pub new-Created :
    (avail : ℕ → Bool)
    → ((n : ℕ) → avail n ≡ true)
    → (held : List ℕ) (size : ℕ) (h : Heap) → Counts held h
    → size < 2 ^ 64
    → Created held (new avail size h)
unfolding new malloc init_count
new-Created avail ample held size h c fit = simp (ample (max size sizeof_count)) (record {
  stream = _;
  heap = _;
  returns = refl;
  valid = record {
    counts = record {
      exact = λ d. ground (arith, c.exact d, c.fresh d);
      fresh = λ d le. ground (arith, c.fresh d);
    };
    head = omega arith;
    order = omega arith;
    size = omega arith;
  };
  no_data = refl;
})

-- Filling space that there is adds exactly that to the data, and consuming data that there is takes
-- it off; both keep the stream valid.
pub fill_consume :
    (held : List ℕ) (s : Stream) (h : Heap) (filled consumed : ℕ)
    → IsValid held s h
    → filled ≤ s.free
    → consumed ≤ data_size (buffer_filled s filled)
    → let t = data_consumed (buffer_filled s filled) consumed in
      IsValid held t h
      × (data_size t + consumed ≡ data_size s + filled)
      × (t.free + filled ≡ s.free)
      × (t.used ≡ s.used + filled)
unfolding buffer_filled data_size data_consumed
fill_consume held s h filled consumed v le le' = (
  record {
    counts = v.counts;
    head = omega (arith, v.head, v.order, v.size);
    order = omega (arith, v.head, v.order, v.size);
    size = omega (arith, v.head, v.order, v.size);
  },
  omega (arith, v.head, v.order, v.size),
  omega (arith, v.head, v.order, v.size),
  omega (arith, v.head, v.order, v.size),
)
