-- ===== src/Block/Occurs.antt =====
-- Counts as numbers of references: a count of a block is right if it is the number of times that the
-- block occurs among all references to it.
use mpio.Prelude.{
  ℕ, ◌+◌, ◌-◌, ◌%◌, ◌^◌, ◌≤◌, ◌<◌, ◌≡◌, refl, ◌∙◌, List, [], ◌∷◌, ◌++◌, false, ◌==◌, if◌then◌else◌,
  arith,
}
use mpio.Memory.{Outcome, returned}
use mpio.Family.{update}
use mpio.Block.{Heap, incr_count, decr_count, decr_all}

abbrev pub occurs : ℕ → List ℕ → ℕ
occurs d [] = 0
occurs d (r ∷ rs) = (if r == d then 1 else 0) + occurs d rs

pub occurs-append : (d : ℕ) (rs ss : List ℕ) → occurs d (rs ++ ss) ≡ occurs d rs + occurs d ss
occurs-append d [] ss = omega arith
occurs-append d (r ∷ rs) ss = omega (arith, occurs-append d rs ss)

-- Every count is the number of references among `refs`, and fits a count_t; no block is counted that
-- was not given out.
pub record Counts (refs : List ℕ) (h : Heap) : Type 0 where
  pub exact : (d : ℕ) → h.count d ≡ occurs d refs
  pub fresh : (d : ℕ) → h.next ≤ d → h.count d ≡ 0

-- The heap that is returned counts `refs`, and no byte has changed.
pub record Recounted (refs : List ℕ) (h : Heap) (o : Outcome Heap) : Type 0 where
  pub heap : Heap
  pub returns : o ≡ returned heap
  pub counts : Counts refs heap
  pub same : heap.bytes ≡ h.bytes
  pub given : heap.next ≡ h.next

-- Dropping a reference to a counted block does not fault.
pub decr_count-Recounted :
    (d : ℕ) (refs : List ℕ) (h : Heap) → Counts (d ∷ refs) h → Recounted refs h (decr_count d h)
unfolding decr_count
decr_count-Recounted d refs h c = rw held (record {
  heap = record h { count = update h.count d (h.count d - 1) };
  returns = refl;
  counts = record {
    exact = λ b. ground (arith, c.exact b, c.exact d);
    fresh = λ b le. ground (arith, c.fresh b, c.fresh d, c.exact d);
  };
  same = refl;
  given = refl;
})
  where
    held : (h.count d == 0) ≡ false
    held = ground (arith, c.exact d)

-- Dropping references to counted blocks does not fault.
pub decr_all-Recounted :
    (ds refs : List ℕ) (h : Heap) → Counts (ds ++ refs) h → Recounted refs h (decr_all ds h)
unfolding decr_all
decr_all-Recounted [] refs h c = record {
  heap = h;
  returns = refl;
  counts = c;
  same = refl;
  given = refl;
}
decr_all-Recounted (d ∷ ds) refs h c =
    let one : Recounted (ds ++ refs) h (decr_count d h) = decr_count-Recounted d (ds ++ refs) h c in
    let all : Recounted refs one.heap (decr_all ds one.heap) =
      decr_all-Recounted ds refs one.heap one.counts in
    record {
      heap = all.heap;
      returns = rw one.returns all.returns;
      counts = all.counts;
      same = all.same ∙ one.same;
      given = all.given ∙ one.given;
    }

pub incr_count-Recounted :
    (d : ℕ) (refs : List ℕ) (h : Heap)
    → Counts refs h
    → 0 < h.count d
    → h.count d + 1 < 2 ^ 32
    → Recounted (d ∷ refs) h (incr_count d h)
unfolding incr_count
incr_count-Recounted d refs h c pos small = rw held (record {
  heap = record h { count = update h.count d ((h.count d + 1) % 2 ^ 32) };
  returns = refl;
  counts = record {
    exact = λ b. ground (arith, c.exact b, c.exact d);
    fresh = λ b le. ground (arith, c.fresh b, c.fresh d);
  };
  same = refl;
  given = refl;
})
  where
    held : (h.count d == 0) ≡ false
    held = ground arith

-- Only the number of references counts, not their order.
pub Counts-perm :
    (refs refs' : List ℕ) (h : Heap)
    → ((d : ℕ) → occurs d refs ≡ occurs d refs')
    → Counts refs h
    → Counts refs' h
Counts-perm refs refs' h same c = record { exact = λ d. c.exact d ∙ same d; fresh = c.fresh }
