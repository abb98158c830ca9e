-- ===== src/StreamBuffer/Retain.antt =====
-- Handing out and dropping references in mp/stream_buffer.h: `retain`, `retain_to`, `ref::clear` and
-- the destructor keep every count the number of references.
use mpio.Prelude.{ℕ, ◌+◌, ◌^◌, ◌<◌, ◌≡◌, refl, ◌∙◌, List, [], ◌∷◌, ◌++◌, arith}
use mpio.Memory.{returned}
use mpio.Block.{Heap, With, decr_count, decr_all, incr_count}
use mpio.Block.Occurs.{
  occurs, occurs-append, Counts-perm, Recounted, decr_count-Recounted, decr_all-Recounted,
  incr_count-Recounted,
}
use mpio.StreamBuffer.{Stream, clear_ref, push_ref, retain, retain_to, destroy}
use mpio.StreamBuffer.Valid.{IsValid, contents}

-- Moving the references of the stream out: none is counted anew, the stream stays valid, and its data
-- is the same.
pub retain-IsValid :
    (held : List ℕ) (s : Stream) (h : Heap)
    → IsValid held s h
    → IsValid ((retain s).0 ++ held) (retain s).1 h × (contents (retain s).1 h ≡ contents s h)
unfolding retain
retain-IsValid held s h v =
    (record { counts = v.counts; head = v.head; order = v.order; size = v.size }, refl)

-- What `retain_to` returns: the new `*to`, and a valid stream with the same data; the references
-- that `*to` held are dropped, and the new ones include the block of the stream.
pub record Retained (others : List ℕ) (s : Stream) (h : Heap) (o : With (List ℕ × Stream))
    : Type 0 where
  pub to : List ℕ
  pub stream : Stream
  pub heap : Heap
  pub returns : o ≡ returned ((to, stream), heap)
  pub valid : IsValid (to ++ others) stream heap
  pub same : contents stream heap ≡ contents s h
  pub taken : to ≡ s.ref ++ (s.buffer ∷ [])
  pub emptied : stream.ref ≡ []

-- `retain_to` does not fault, and every count stays right, where one more reference to the block
-- of the stream fits its count.
pub retain_to-Retained :
    (to others : List ℕ) (s : Stream) (h : Heap)
    → IsValid (to ++ others) s h
    → h.count s.buffer + 1 < 2 ^ 32
    → Retained others s h (retain_to s to h)
unfolding retain_to push_ref clear_ref
retain_to-Retained to others s h v fits =
    rw (pushed.returns, clear_ref, cleared.returns)
      (record {
        to = s.ref ++ (s.buffer ∷ []);
        stream = record s { ref = [] };
        heap = cleared.heap;
        returns = refl;
        valid = record {
          counts = Counts-perm left _ cleared.heap kept cleared.counts;
          head = v.head;
          order = v.order;
          size = v.size;
        };
        same = rw (cleared.same, pushed.same) refl;
        taken = refl;
        emptied = refl;
      })
  where
    all : List ℕ
    all = s.buffer ∷ s.ref ++ (to ++ others)

    left : List ℕ
    left = s.buffer ∷ s.buffer ∷ s.ref ++ others

    pos : 0 < h.count s.buffer
    pos = ground (arith, v.counts.exact s.buffer)

    pushed : Recounted (s.buffer ∷ all) h (incr_count s.buffer h)
    pushed = incr_count-Recounted s.buffer all h v.counts pos fits

    moved : (d : ℕ) → occurs d (s.buffer ∷ all) ≡ occurs d (to ++ left)
    moved d = omega (
      arith,
      occurs-append d to left,
      occurs-append d s.ref others,
      occurs-append d to others,
      occurs-append d s.ref (to ++ others),
    )

    cleared : Recounted left pushed.heap (decr_all to pushed.heap)
    cleared =
        decr_all-Recounted to left pushed.heap
          (Counts-perm (s.buffer ∷ all) (to ++ left) pushed.heap moved pushed.counts)

    kept :
        (d : ℕ) → occurs d left ≡ occurs d (s.buffer ∷ [] ++ ((s.ref ++ (s.buffer ∷ [])) ++ others))
    kept d = omega (
      arith,
      occurs-append d s.ref others,
      occurs-append d (s.ref ++ (s.buffer ∷ [])) others,
      occurs-append d s.ref (s.buffer ∷ []),
    )

-- The destructor, when nothing outside the stream refers to a block, does not fault and drops the
-- count of every block to 0.
pub destroy-Recounted : (s : Stream) (h : Heap) → IsValid [] s h → Recounted [] h (destroy s h)
unfolding destroy clear_ref
destroy-Recounted s h v =
    let one : Recounted (s.ref ++ []) h (decr_count s.buffer h) =
      decr_count-Recounted s.buffer (s.ref ++ []) h v.counts in
    let all : Recounted [] one.heap (decr_all s.ref one.heap) =
      decr_all-Recounted s.ref [] one.heap one.counts in
    record {
      heap = all.heap;
      returns = rw (one.returns, all.returns) refl;
      counts = all.counts;
      same = all.same ∙ one.same;
      given = all.given ∙ one.given;
    }
