-- ===== src/SparseArray/Extend.antt =====
-- The loop of `set_impl` (mp/sparse_array.hmpl) that makes room for an index.
use mathlib.Core.Path.{subst}
use mpio.Prelude.{
  ℕ, zero, suc, ◌+◌, ◌/◌, ◌%◌, ◌<◌, ◌≤◌, ◌≡◌, refl, sym, ap, ◌∙◌, [], ◌∷◌, ◌++◌, Option, none, some,
  Bool, true, false, ◌==◌, Bool-cases, inl, inr, length, leb, ◌>>=◌, if◌then◌else◌, arith,
  length-append,
}
use mpio.SparseArray.{Sparse, blank, item_of, extend_loop, seen}
use mpio.SparseArray.Slots.{get_elem?-above, get_elem?-more, some_inj, Alive, IsValid}

module _ {A : Type 0} where
  item_of-more :
      (arr : Sparse A) (j : ℕ)
      → item_of (arr ++ ((λ i. blank) ∷ [])) j
        ≡ (if j / 64 == length arr then some blank else item_of arr j)
  unfolding item_of
  item_of-more arr j =
      ap (λ o. o >>= λ seg. some (seg (j % 64))) (get_elem?-more arr (λ i. blank) (j / 64))
      ∙ (elim (Bool-cases (j / 64 == length arr)) [ inl new ↦ rw new refl | inr old ↦ rw old refl ])

  item_of-above : (arr : Sparse A) (j : ℕ) → length arr ≤ j / 64 → item_of arr j ≡ none
  unfolding item_of
  item_of-above arr j h = rw (get_elem?-above arr (j / 64) h) refl

  -- The loop ends with a segment for the index, and nothing else has changed.
  pub record Room (arr : Sparse A) (i : ℕ) (o : Option (Bool × Sparse A)) : Type 0 where
    pub after : Sparse A
    pub returns : o ≡ some (true, after)
    pub inside : i / 64 < length after
    pub valid : IsValid after
    pub same : (j : ℕ) → (item_of after j >>= seen) ≡ (item_of arr j >>= seen)

  more-IsValid : (arr : Sparse A) → IsValid arr → IsValid (arr ++ ((λ i. blank) ∷ []))
  more-IsValid arr v j t e = elim (Bool-cases (j / 64 == length arr)) [
    | inl new ↦
        let same : blank ≡ t = some_inj blank t (rw new at (sym (item_of-more arr j) ∙ e)) in
        subst (λ x. Alive x.enable x.object) same tt
    | inr old ↦ v j t (rw old at (sym (item_of-more arr j) ∙ e))
  ]

  more-same :
      (arr : Sparse A) (j : ℕ)
      → (item_of (arr ++ ((λ i. blank) ∷ [])) j >>= seen) ≡ (item_of arr j >>= seen)
  more-same arr j =
      ap (λ o. o >>= seen) (item_of-more arr j) ∙ (elim (Bool-cases (j / 64 == length arr)) [
        | inl new ↦ rw (new, item_of-above arr j (ground arith)) refl
        | inr old ↦ rw old refl
      ])

  Room-stop :
      (arr : Sparse A) (i : ℕ) → IsValid arr → i / 64 < length arr → Room arr i (some (true, arr))
  Room-stop arr i v h = record {
    after = arr;
    returns = refl;
    inside = h;
    valid = v;
    same = λ j. refl;
  }

  Room-more :
      (arr : Sparse A) (i : ℕ) (o : Option (Bool × Sparse A))
      → Room (arr ++ ((λ i. blank) ∷ [])) i o
      → Room arr i o
  Room-more arr i o r = record {
    after = r.after;
    returns = r.returns;
    inside = r.inside;
    valid = r.valid;
    same = λ j. r.same j ∙ more-same arr j;
  }

  pub extend_loop-Room :
      (calloc : ℕ → Bool)
      → ((n : ℕ) → calloc n ≡ true)
      → (fuel i : ℕ) (arr : Sparse A) → IsValid arr
      → i / 64 < length arr + fuel
      → Room arr i (extend_loop calloc (suc fuel) i arr)
  unfolding extend_loop
  extend_loop-Room calloc ample zero i arr v enough =
      let inside : leb (length arr) (i / 64) ≡ false = ground (arith, enough) in
      rw inside (Room-stop arr i v (omega (arith, enough)))
  extend_loop-Room calloc ample (suc fuel) i arr v enough =
      elim (Bool-cases (leb (length arr) (i / 64))) [
        | inr inside ↦ rw inside (Room-stop arr i v (ground arith))
        | inl short ↦
            rw (short, ample (length arr))
              (Room-more arr i _ (
                extend_loop-Room calloc ample fuel i (arr ++ ((λ i. blank) ∷ []))
                  (more-IsValid arr v)
                  (omega (arith, enough, length-append arr ((λ i. blank) ∷ [])))))
      ]
