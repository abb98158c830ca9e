-- ===== src/StreamBuffer/Grow.antt =====
-- The new block of `stream_buffer::expand_buffer` (mp/stream_buffer.h): the data and the references in it.
use mathlib.Core.Path.{ap₂}
use mpio.Prelude.{
  ℕ, zero, suc, ◌+◌, ◌-◌, ◌^◌, ◌≤◌, ◌<◌, ◌≡◌, refl, ap, ◌∙◌, List, [], ◌∷◌, ◌++◌, Bool, arith, true,
  false, ◌==◌, if◌then◌else◌,
}
use mpio.Memory.{returned, ◌>>=◌, add_size, sub_size}
use mpio.Family.{update, update_self}
use mpio.Block.{sizeof_count, Heap, With, init_count, malloc, realloc}
use mpio.Block.Occurs.{occurs, occurs-append, Counts}
use mpio.StreamBuffer.{Stream, move_ref, copy_data}
use mpio.StreamBuffer.Valid.{IsValid, window, contents}

-- Below these sizes no arithmetic wraps.
abbrev pub IsSmall : Stream → ℕ → ℕ → Type 0
IsSmall s len initial = (s.used + s.free < 2 ^ 61) × (len < 2 ^ 61) × (initial < 2 ^ 61)

-- What `reserve_buffer` returns: a valid stream with room for `len` bytes and the same data. The
-- blocks that are referenced from outside keep their bytes; and where the block of the stream is one
-- of them and stays, the room begins no earlier than before, so none of its bytes is written again.
pub record Reserved (held : List ℕ) (s : Stream) (h : Heap) (len : ℕ) (o : With Stream)
    : Type 0 where
  pub stream : Stream
  pub heap : Heap
  pub returns : o ≡ returned (stream, heap)
  pub valid : IsValid held stream heap
  pub room : len ≤ stream.free
  pub same : contents stream heap ≡ contents s h
  pub untouched : (d : ℕ) → 0 < occurs d held → heap.bytes d ≡ h.bytes d
  pub no_reuse : 0 < occurs s.buffer held → stream.buffer ≡ s.buffer → s.used ≤ stream.used

window-ext :
    (f g : ℕ → ℕ) (i j n : ℕ)
    → ((k : ℕ) → k < n → f (i + k) ≡ g (j + k))
    → window f i n ≡ window g j n
window-ext f g i j zero h = refl
window-ext f g i j (suc n) h =
    ap₂ ◌∷◌ (ap f (omega arith) ∙ h 0 (omega arith) ∙ ap g (omega arith)) (
      window-ext f g (i + 1) (j + 1) n
        (λ k lt. ap f (omega arith) ∙ h (k + 1) (omega arith) ∙ ap g (omega arith)))

-- What is copied behind the count of a block is what stood from `off` on.
copy-window :
    (tmp buffer off n : ℕ) (h : Heap)
    → window ((copy_data tmp buffer off n h).bytes tmp) sizeof_count n
      ≡ window (h.bytes buffer) off n
copy-window tmp buffer off n h =
    rw (update_self h.bytes tmp)
      (window-ext _ (h.bytes buffer) sizeof_count off n (λ k lt. ground arith))

module _ (held : List ℕ) (s : Stream) (h : Heap) (v : IsValid held s h) (len : ℕ) where
  -- How often a block is referenced: by the stream, by its `m_ref`, and from outside.
  pub references :
      (d : ℕ) → h.count d ≡ (if s.buffer == d then 1 else 0) + (occurs d s.ref + occurs d held)
  references d = omega (arith, v.counts.exact d, occurs-append d s.ref held)

  moved-Counts :
      h.count s.buffer ≡ 1
      → (b : ℕ → ℕ → ℕ)
      → Counts (h.next ∷ s.ref ++ held) (record {
        next = h.next + 1;
        count = update (update h.count h.next (h.count s.buffer)) s.buffer 0;
        bytes = b;
      })
  moved-Counts alone b = record {
    exact = λ d. ground (
      arith,
      occurs-append d s.ref held,
      references d,
      references s.buffer,
      v.counts.fresh d,
      v.counts.fresh s.buffer,
    );
    fresh = λ d le. ground (arith, v.counts.fresh d);
  }

  appended-Counts :
      (b : ℕ → ℕ → ℕ)
      → Counts
          (h.next ∷ move_ref s.ref s.buffer ++ held)
          (record { next = h.next + 1; count = update h.count h.next 1; bytes = b })
  appended-Counts b = record {
    exact = λ d. ground (
      arith,
      occurs-append d (move_ref s.ref s.buffer) held,
      occurs-append d s.ref (s.buffer ∷ []),
      references d,
      v.counts.fresh d,
    );
    fresh = λ d le. ground (arith, v.counts.fresh d);
  }

  -- A block that is referenced is not the next one.
  next-ne : (d : ℕ) → 0 < occurs d held → (h.next == d) ≡ false
  next-ne d o = ground (arith, references d, v.counts.fresh d)

  next-ne-buffer : (h.next == s.buffer) ≡ false
  next-ne-buffer = ground (arith, references s.buffer, v.counts.fresh s.buffer)

  module _ (avail : ℕ → Bool) (ample : (n : ℕ) → avail n ≡ true) where
    pub realloc-Reserved :
        (size : ℕ)
        → h.count s.buffer ≡ 1
        → len + s.used ≤ size
        → size < 2 ^ 64
        → Reserved held s h len (
            realloc avail s.buffer size h >>= λ (tmp, h').
            returned (record s { buffer = tmp; free = sub_size size s.used }, h'))
    unfolding realloc
    realloc-Reserved size alone enough fits = simp (ample size) (record {
      stream = record s { buffer = h.next; free = sub_size size s.used };
      heap = _;
      returns = refl;
      valid = record {
        counts = moved-Counts alone (update h.bytes h.next (h.bytes s.buffer));
        head = v.head;
        order = v.order;
        size = omega arith;
      };
      room = omega arith;
      same = rw (update_self h.bytes h.next (h.bytes s.buffer));
      untouched = λ d o. rw (next-ne d o);
      no_reuse = λ o e. omega arith;
    })

    pub malloc-Reserved :
        (size : ℕ)
        → len + (s.used - s.off) + sizeof_count ≤ size
        → size < 2 ^ 64
        → Reserved held s h len (
            malloc avail size h >>= λ (tmp, h'). returned (
              record {
                buffer = tmp;
                used = add_size (sub_size s.used s.off) sizeof_count;
                free = sub_size size (add_size (sub_size s.used s.off) sizeof_count);
                off = sizeof_count;
                ref = move_ref s.ref s.buffer;
              },
              copy_data tmp s.buffer s.off (sub_size s.used s.off) (init_count tmp h'),
            ))
    unfolding malloc init_count
    malloc-Reserved size enough fits = simp (ample size) (record {
      stream = _;
      heap = _;
      returns = refl;
      valid = record {
        counts = appended-Counts _;
        head = omega arith;
        order = omega arith;
        size = omega (arith, v.order, v.size);
      };
      room = omega (arith, v.order, v.size);
      same =
          ap (λ n. window (copied.bytes h.next) sizeof_count n) (omega (arith, v.order, v.size))
          ∙ copy-window h.next s.buffer s.off (sub_size s.used s.off) start
          ∙ ap (window (h.bytes s.buffer) s.off) (omega (arith, v.order, v.size));
      untouched = λ d o. rw (next-ne d o);
      no_reuse = λ o e. ground (arith, next-ne-buffer);
    })
      where
        start : Heap
        start = init_count h.next (record h { next = h.next + 1 })

        copied : Heap
        copied = copy_data h.next s.buffer s.off (sub_size s.used s.off) start
