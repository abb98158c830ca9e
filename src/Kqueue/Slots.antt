-- ===== src/Kqueue/Slots.antt =====
-- The identifiers that `alloc_xident` of mpsrc/wavy_kernel_kqueue.h gives out.
use mpio.Prelude.{
  ℕ, zero, suc, ◌+◌, ◌-◌, ◌%◌, ◌^◌, ◌<◌, ◌≡◌, refl, ap, ◌∙◌, Option, none, some, true, false,
  Bool-cases, inl, inr, arith,
}
use mpio.Family.{update}
use mpio.Kqueue.{Kernel, xident_max, alloc_loop, alloc_xident, free_xident}

-- A slot that was free is taken, and no other has changed.
pub record Took (k : Kernel) (id : ℕ) (k' : Kernel) : Type 0 where
  pub slot : ℕ
  pub below : slot < xident_max
  pub free : k.xident slot ≡ false
  pub value : id ≡ k.fdmax + slot
  pub fdmax : k'.fdmax ≡ k.fdmax
  pub taken : k'.xident ≡ update k.xident slot true

-- No slot is free, and none has changed.
pub record Full (k k' : Kernel) : Type 0 where
  pub all : (x : ℕ) → x < xident_max → k.xident x ≡ true
  pub fdmax : k'.fdmax ≡ k.fdmax
  pub kept : k'.xident ≡ k.xident

abbrev pub Allocated : Kernel → Option ℕ × Kernel → Type 0
Allocated k (some id, k') = Took k id k'
Allocated k (none, k') = Full k k'

-- After `rounds` rounds in vain the slots from the index on are taken.
abbrev Searched : ℕ → Kernel → Option ℕ × Kernel → Type 0
Searched rounds k (some id, k') = Took k id k'
Searched rounds k (none, k') =
    (k'.fdmax ≡ k.fdmax)
    × (k'.xident ≡ k.xident)
    × ((i : ℕ) → i < rounds → k.xident ((k.index + i) % 256) ≡ true)

Searched-suc :
    (rounds : ℕ) (k : Kernel) (r : Option ℕ × Kernel)
    → k.xident (k.index % 256) ≡ true
    → Searched rounds (record k { index = (k.index + 1) % 2 ^ 32 }) r
    → Searched (suc rounds) k r
Searched-suc rounds k (some id, k') first t = record {
  slot = t.slot;
  below = t.below;
  free = t.free;
  value = t.value;
  fdmax = t.fdmax;
  taken = t.taken;
}
Searched-suc rounds k (none, k') first (same, kept, rest) = (same, kept, all)
  where
    all : (i : ℕ) → i < suc rounds → k.xident ((k.index + i) % 256) ≡ true
    all zero lt =
        ap k.xident (let e : (k.index + 0) % 256 ≡ k.index % 256 = omega arith in e) ∙ first
    all (suc i) lt =
        ap k.xident
          (let e : (k.index + suc i) % 256 ≡ ((k.index + 1) % 2 ^ 32 + i) % 256 = omega arith in e)
        ∙ rest i (omega arith)

alloc_loop-Searched : (rounds : ℕ) (k : Kernel) → Searched rounds k (alloc_loop rounds k)
unfolding alloc_loop
alloc_loop-Searched zero k = (refl, refl, λ i lt. absurd (omega arith))
alloc_loop-Searched (suc rounds) k = elim (Bool-cases (k.xident (k.index % 256))) [
  | inl busy ↦ rw busy (
      Searched-suc rounds k (alloc_loop rounds (record k { index = (k.index + 1) % 2 ^ 32 })) busy
        (alloc_loop-Searched rounds (record k { index = (k.index + 1) % 2 ^ 32 })))
  | inr free ↦ rw free (record {
    slot = k.index % 256;
    below = omega arith;
    free = free;
    value = refl;
    fdmax = refl;
    taken = refl;
  })
]

Searched-Allocated : (k : Kernel) (r : Option ℕ × Kernel) → Searched 512 k r → Allocated k r
Searched-Allocated k (some id, k') t = t
Searched-Allocated k (none, k') (same, kept, all) = record {
  all = λ x lt.
      ap k.xident (let e : x ≡ (k.index + (x + 256 - k.index % 256) % 256) % 256 = omega arith in e)
      ∙ all ((x + 256 - k.index % 256) % 256) (omega arith);
  fdmax = same;
  kept = kept;
}

-- `alloc_xident` gives out an identifier above the descriptors that was not given out, and takes
-- no other; it gives none only where all are given out.
pub alloc_xident-Allocated : (k : Kernel) → Allocated k (alloc_xident k)
unfolding alloc_xident
alloc_xident-Allocated k = Searched-Allocated k (alloc_loop 512 k) (alloc_loop-Searched 512 k)

-- An identifier that is given out and then freed leaves the slots as they were.
pub free_xident-Took :
    (k k' : Kernel) (id : ℕ)
    → Took k id k'
    → (free_xident id k').0 ≡ true × ((x : ℕ) → (free_xident id k').1.xident x ≡ k.xident x)
unfolding free_xident
free_xident-Took k k' id t = rw held (refl, λ x. back x)
  where
    at_slot : id - k'.fdmax ≡ t.slot
    at_slot = omega (arith, t.value, t.fdmax)

    held : k'.xident (id - k'.fdmax) ≡ true
    held = ap k'.xident at_slot ∙ ap (λ f. f t.slot) t.taken ∙ ground arith

    back : (x : ℕ) → update k'.xident (id - k'.fdmax) false x ≡ k.xident x
    back x = rw (at_slot, t.taken) (ground (arith, t.free))
