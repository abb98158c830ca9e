-- ===== src/SparseArray/Destroy.antt =====
-- What the destructor of sparse_array (mp/sparse_array.hmpl) destroys.
use mpio.Prelude.{
  ℕ, zero, suc, ◌+◌, ◌*◌, ◌/◌, ◌%◌, ◌<◌, ◌≡◌, refl, sym, ap, ◌∙◌, List, [], ◌∷◌, ◌++◌, Option, none,
  some, Bool, true, false, length, ◌>>=◌, if◌then◌else◌, arith,
}
use mathlib.Core.Path.{ap₂}
use mpio.SparseArray.{
  Slot, Sparse, item_of, seen, get, capacity, destroy_object, destroy_items, destroy,
}
use mpio.SparseArray.Slots.{Alive, IsValid, get-look}

module _ {A : Type 0} where
  abbrev pub prepend : Option A → List A → List A
  prepend none vs = vs
  prepend (some v) vs = v ∷ vs

  -- The objects at `n` indexes from `b` on, in order.
  unfoldable pub held : (ℕ → Option A) → ℕ → ℕ → List A
  held f zero b = []
  held f (suc n) b = prepend (f b) (held f n (b + 1))

  held_zero : (f : ℕ → Option A) → held f 0 0 ≡ []
  unfolding held
  held_zero f = refl

  prepend-append : (o : Option A) (vs ws : List A) → prepend o vs ++ ws ≡ prepend o (vs ++ ws)
  prepend-append none vs ws = refl
  prepend-append (some v) vs ws = refl

  held-append : (f : ℕ → Option A) (n m b : ℕ) → held f (n + m) b ≡ held f n b ++ held f m (b + n)
  unfolding held
  held-append f zero m b = ap (λ k. held f k b) (omega arith) ∙ ap (held f m) (omega arith)
  held-append f (suc n) m b =
      ap (λ k. held f k b) (let e : suc n + m ≡ suc (n + m) = omega arith in e)
      ∙ ap (prepend (f b))
          (held-append f n m (b + 1) ∙ ap (λ k. held f n (b + 1) ++ held f m k) (omega arith))
      ∙ sym (prepend-append (f b) (held f n (b + 1)) (held f m (b + suc n)))

  held-same :
      (f g : ℕ → Option A) (n b c : ℕ)
      → ((i : ℕ) → i < n → f (b + i) ≡ g (c + i))
      → held f n b ≡ held g n c
  unfolding held
  held-same f g zero b c h = refl
  held-same f g (suc n) b c h =
      ap₂ prepend (ap f (omega arith) ∙ h 0 (omega arith) ∙ ap g (omega arith)) (
        held-same f g n (b + 1) (c + 1)
          (λ i lt. ap f (omega arith) ∙ h (i + 1) (omega arith) ∙ ap g (omega arith)))

  destroy_items-held :
      (n p : ℕ) (seg : ℕ → Slot A)
      → ((i : ℕ) → i < n → Alive (seg (p + i)).enable (seg (p + i)).object)
      → destroy_items n p seg ≡ some (held (λ i. seen (seg i)) n p)
  unfolding destroy_items held
  destroy_items-held zero p seg h = refl
  destroy_items-held (suc n) p seg h =
      rw
        (destroy_items-held n (p + 1) seg
          (λ i lt. here (p + (i + 1)) (p + 1 + i) (omega arith) (h (i + 1) (omega arith))))
        (first (seg p).enable (seg p).object (here (p + 0) p (omega arith) (h 0 (omega arith)))
          (held (λ i. seen (seg i)) n (p + 1)))
    where
      here :
          (i j : ℕ)
          → i ≡ j
          → Alive (seg i).enable (seg i).object
          → Alive (seg j).enable (seg j).object
      here i j e a = rw e at a

      first :
          (b : Bool) (o : Option A)
          → Alive b o
          → (vs : List A)
          → (if b then destroy_object o (some vs) else some vs)
            ≡ some (prepend (if b then o else none) vs)
      first true (some v) a vs = refl
      first true none a vs = absurd a
      first false none a vs = refl
      first false (some v) a vs = absurd a

  item_of-first :
      (seg : ℕ → Slot A) (segs : Sparse A) (i : ℕ) → i < 64 → item_of (seg ∷ segs) i ≡ some (seg i)
  unfolding item_of
  item_of-first seg segs i h =
      let q : i / 64 ≡ 0 = omega arith in let r : i % 64 ≡ i = omega arith in rw (q, r) refl

  item_of-later :
      (seg : ℕ → Slot A) (segs : Sparse A) (i : ℕ) → item_of (seg ∷ segs) (64 + i) ≡ item_of segs i
  unfolding item_of
  item_of-later seg segs i =
      let q : (64 + i) / 64 ≡ suc (i / 64) = omega arith in
      let r : (64 + i) % 64 ≡ i % 64 = omega arith in rw (q, r) refl

  destroy-looks :
      (arr : Sparse A)
      → IsValid arr
      → destroy arr ≡ some (held (λ i. item_of arr i >>= seen) (length arr * 64) 0)
  unfolding destroy
  destroy-looks [] v = ap some (sym (held_zero (λ i. item_of {A = A} [] i >>= seen)))
  destroy-looks (seg ∷ segs) v =
      rw
        (
          destroy_items-held 64 0 seg (λ i lt.
              v (0 + i) (seg (0 + i)) (item_of-first seg segs (0 + i) (omega (arith, lt)))),
          destroy-looks segs (λ i s e. v (64 + i) s (item_of-later seg segs i ∙ e)),
        )
        (ap some (
          sym (
            ap (λ k. held (λ i. item_of (seg ∷ segs) i >>= seen) k 0)
              (let e : suc (length segs) * 64 ≡ 64 + length segs * 64 = omega arith in e)
            ∙ held-append (λ i. item_of (seg ∷ segs) i >>= seen) 64 (length segs * 64) 0
            ∙ ap₂ ◌++◌
                (held-same (λ i. item_of (seg ∷ segs) i >>= seen) (λ i. seen (seg i)) 64 0 0
                  (λ i lt.
                    ap (λ o. o >>= seen) (item_of-first seg segs (0 + i) (omega (arith, lt)))))
                (held-same (λ i. item_of (seg ∷ segs) i >>= seen) (λ i. item_of segs i >>= seen)
                  (length segs * 64) (0 + 64) 0
                  (λ i lt.
                    ap (λ o. o >>= seen)
                      (item_of-later seg segs i
                        ∙ ap (item_of segs) (let e : i ≡ 0 + i = omega arith in e)))))))

  -- The destructor of a valid array destroys every object that is in it once, in the order of the
  -- indexes, and nothing else.
  pub destroy-held :
      (arr : Sparse A) → IsValid arr → destroy arr ≡ some (held (λ i. get i arr) (capacity arr) 0)
  unfolding capacity
  destroy-held arr v =
      destroy-looks arr v
      ∙ ap some (
          held-same (λ i. item_of arr i >>= seen) (λ i. get i arr) (length arr * 64) 0 0
            (λ i lt. sym (get-look arr (0 + i))))
