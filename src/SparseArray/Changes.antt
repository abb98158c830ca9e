-- ===== src/SparseArray/Changes.antt =====
-- What `set` and `reset` of mp/sparse_array.hmpl do to the array as a partial map.
use mathlib.Core.Path.{subst}
use mpio.Prelude.{
  ℕ, suc, ◌/◌, ◌%◌, ◌<◌, ◌≤◌, ◌≡◌, refl, sym, ap, ◌∙◌, Option, none, some, Bool, true, false, ◌==◌,
  Bool-cases, inl, inr, length, leb, ltb, ◌>>=◌, if◌then◌else◌, arith,
}
use mpio.SparseArray.{
  Slot, Sparse, Result, returned, throws, fault, blank, item_of, put, extend_loop, revert,
  construct, claim, set, reset, reset_object, seen, get,
}
use mpio.SparseArray.Slots.{
  modify-same, length-modify, get_elem?-above, item_of-put, get-look, some_inj, Alive, IsValid,
}
use mpio.SparseArray.Extend.{Room, extend_loop-Room}

module _ {A : Type 0} where
  -- What `set` returns or throws: the index has the value, or none; every other is as before.
  abbrev pub outcome : Option A → Sparse A → Result (Sparse A)
  outcome none arr = throws arr
  outcome (some v) arr = returned arr

  pub record Changed (arr : Sparse A) (i : ℕ) (value : Option A) (o : Sparse A → Result (Sparse A))
      (r : Result (Sparse A)) : Type 0 where
    pub after : Sparse A
    pub returns : r ≡ o after
    pub valid : IsValid after
    pub view : (j : ℕ) → get j after ≡ (if i == j then value else get j arr)

  length-put : (arr : Sparse A) (i : ℕ) (s : Slot A) → length (put arr i s) ≡ length arr
  unfolding put
  length-put arr i s = length-modify arr (i / 64) _

  -- The slot of `i` is `t`, the others are as before.
  abbrev Written : Sparse A → ℕ → Slot A → Sparse A → Type 0
  Written arr i t arr' = (j : ℕ) → item_of arr' j ≡ (if i == j then some t else item_of arr j)

  put-twice :
      (arr : Sparse A) (i : ℕ) (s t : Slot A)
      → i / 64 < length arr
      → Written arr i t (put (put arr i s) i t)
  put-twice arr i s t h j =
      item_of-put (put arr i s) i j t (omega (arith, h, length-put arr i s))
      ∙ elim (Bool-cases (i == j))
          as (λ x.
            (if i == j then some t else item_of (put arr i s) j)
            ≡ (if i == j then some t else item_of arr j)) [
              | inl eq ↦ rw eq refl
              | inr ne ↦
                  ap (λ x. if i == j then some t else x) (item_of-put arr i j s h ∙ rw ne refl)
            ]

  Written-Changed :
      (arr arr' : Sparse A) (i : ℕ) (t : Slot A) (value : Option A)
      (o : Sparse A → Result (Sparse A))
      → Written arr i t arr'
      → IsValid arr
      → Alive t.enable t.object
      → seen t ≡ value
      → Changed arr i value o (o arr')
  Written-Changed arr arr' i t value o w v ok e = record {
    after = arr';
    returns = refl;
    valid = λ j x q. elim (Bool-cases (i == j)) [
      | inl eq ↦ subst (λ y. Alive y.enable y.object) (some_inj t x (rw eq at (sym (w j) ∙ q))) ok
      | inr ne ↦ v j x (rw ne at (sym (w j) ∙ q))
    ];
    view = λ j.
        get-look arr' j
        ∙ ap (λ l. l >>= seen) (w j)
        ∙ elim (Bool-cases (i == j))
            as (λ x.
              ((if i == j then some t else item_of arr j) >>= seen)
              ≡ (if i == j then value else get j arr)) [
                | inl eq ↦ rw eq e
                | inr ne ↦ rw ne (sym (get-look arr j))
              ];
  }

  -- The same from an array that is seen alike.
  Changed-from :
      (arr arr' : Sparse A) (i : ℕ) (value : Option A) (o : Sparse A → Result (Sparse A))
      (r : Result (Sparse A))
      → ((j : ℕ) → (item_of arr' j >>= seen) ≡ (item_of arr j >>= seen))
      → Changed arr' i value o r
      → Changed arr i value o r
  Changed-from arr arr' i value o r same c = record {
    after = c.after;
    returns = c.returns;
    valid = c.valid;
    view = λ j.
        c.view j
        ∙ ap (λ l. if i == j then value else l) (get-look arr' j ∙ same j ∙ sym (get-look arr j));
  }

  construct-Changed :
      (i : ℕ) (value : Option A) (arr : Sparse A) (object : Option A)
      → i / 64 < length arr
      → IsValid arr
      → object ≡ none
      → Changed arr i value
          (outcome value)
          (construct i value (put arr i (record { enable = true; object = object })))
  unfolding revert
  construct-Changed i (some v) arr object h valid e =
      let here : (i == i) ≡ true = ground arith in
      rw (item_of-put arr i i (record { enable = true; object = object }) h, here, e)
        (Written-Changed arr _ i (record { enable = true; object = some v }) (some v) returned
          (put-twice arr i _ _ h) valid tt refl)
  construct-Changed i none arr object h valid e =
      let here : (i == i) ≡ true = ground arith in
      rw (item_of-put arr i i (record { enable = true; object = object }) h, here)
        (Written-Changed arr _ i (record { enable = false; object = object }) none throws
          (put-twice arr i _ _ h) valid (rw e tt) refl)

  claim-Changed :
      (i : ℕ) (value : Option A) (arr : Sparse A) (enable : Bool) (object : Option A)
      → i / 64 < length arr
      → IsValid arr
      → Alive enable object
      → Changed arr i value (outcome value) (claim i value arr enable object)
  claim-Changed i value arr true none h v a = absurd a
  claim-Changed i value arr true (some old) h v a = construct-Changed i value arr none h v refl
  claim-Changed i value arr false none h v a = construct-Changed i value arr none h v refl
  claim-Changed i value arr false (some old) h v a = absurd a

  slot-inside :
      (arr : Sparse A) (i : ℕ) → i / 64 < length arr → (s : Slot A) × (item_of arr i ≡ some s)
  unfolding item_of
  slot-inside arr i h =
      let (seg, e, z) = modify-same arr (i / 64) (λ seg. seg) h in (seg (i % 64), rw e refl)

  -- `set` on a valid array, where memory is ample, returns where the constructor of the object
  -- returns, and throws where that throws; no object is constructed over one that is there, so an
  -- object that was at the index is destroyed before; the index has the new object, or none, and
  -- every other index is as before.
  pub set-Changed :
      (calloc : ℕ → Bool)
      → ((n : ℕ) → calloc n ≡ true)
      → (i : ℕ) (value : Option A) (arr : Sparse A) → IsValid arr
      → Changed arr i value (outcome value) (set calloc i value arr)
  unfolding set
  set-Changed calloc ample i value arr v =
      let r : Room arr i (extend_loop calloc (suc (suc (i / 64))) i arr) =
        extend_loop-Room calloc ample (suc (i / 64)) i arr v (omega arith) in
      let (s, e) = slot-inside r.after i r.inside in
      rw (r.returns, e)
        (Changed-from arr r.after i value (outcome value) _ r.same
          (claim-Changed i value r.after s.enable s.object r.inside r.valid (r.valid i s e)))

  reset_object-Changed :
      (i : ℕ) (arr : Sparse A) (s : Slot A) (v : A)
      → i / 64 < length arr
      → IsValid arr
      → s.object ≡ some v
      → Changed arr i none returned (reset_object i arr s.object)
  reset_object-Changed i arr s v h valid e = rw e (
      Written-Changed arr (put arr i blank) i blank none returned (λ j. item_of-put arr i j blank h)
        valid tt refl)

  seen-object : (s : Slot A) (v : A) → seen s ≡ some v → s.object ≡ some v
  seen-object s v e = elim (Bool-cases s.enable) [
    | inl on ↦ rw on at e
    | inr off ↦ absurd (let z : none ≡ some v = rw off at e in cc)
  ]

  held :
      (arr : Sparse A) (i : ℕ) (v : A) (o : Option (Slot A))
      → item_of arr i ≡ o
      → (o >>= seen) ≡ some v
      → i / 64 < length arr × ((s : Slot A) × (item_of arr i ≡ some s) × (s.object ≡ some v))
  unfolding item_of
  held arr i v none e h = absurd (cc)
  held arr i v (some s) e h = elim (Bool-cases (ltb (i / 64) (length arr))) [
    | inl inside ↦ (ground arith, (s, e, seen-object s v h))
    | inr outside ↦
        absurd (let z : none ≡ some s = rw (get_elem?-above arr (i / 64) (ground arith)) at e in cc)
  ]

  -- `reset` of an index that has an object, in a valid array, destroys it and does not fault: the index
  -- has none, and every other is as before.
  pub reset-Changed :
      (i : ℕ) (v : A) (arr : Sparse A)
      → IsValid arr
      → get i arr ≡ some v
      → Changed arr i none returned (reset i arr)
  unfolding reset
  reset-Changed i v arr valid e =
      let (inside, (s, here, o)) = held arr i v (item_of arr i) refl (sym (get-look arr i) ∙ e) in
      rw here (reset_object-Changed i arr s v inside valid o)

  -- Where there is no memory for the segment of the index, the handler of `set` reaches outside the
  -- array.
  pub set_faults :
      (calloc : ℕ → Bool) (i : ℕ) (value : Option A) (arr : Sparse A)
      → length arr ≤ i / 64
      → calloc (length arr) ≡ false
      → set calloc i value arr ≡ fault
  unfolding set extend_loop revert item_of
  set_faults calloc i value arr short no_memory =
      let less : leb (length arr) (i / 64) ≡ true = ground (arith, short) in
      rw (less, no_memory, get_elem?-above arr (i / 64) short) refl
