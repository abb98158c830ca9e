-- ===== src/SparseArray.antt =====
-- The class sparse_array of mp/sparse_array.hmpl: segments of 64 items, an item being a flag and the memory
-- of an object. What is in that memory is an object or none; to destroy or to use none, to reach outside the
-- segments, and to construct an object over one that is there, whose destructor then never runs, is a fault. `calloc n` says whether there is memory for a segment behind n.
pub mod Slots
pub mod Extend
pub mod Changes
pub mod Destroy
use mpio.Prelude.{
  ℕ, zero, suc, ◌+◌, ◌*◌, ◌/◌, ◌%◌, List, [], ◌∷◌, ◌++◌, Option, none, some, Bool, true, false,
  ◌&&◌, length, get_elem?, leb, ltb, ◌>>=◌, if◌then◌else◌,
}
use mpio.Family.{update}

-- EXTEND_ARRAY_SIZE
abbrev pub extend_array_size : ℕ
extend_array_size = 64

pub record Slot (A : Type 0) : Type 0 where
  pub enable : Bool
  pub object : Option A

-- `base_array`
abbrev pub Sparse : Type 0 → Type 0
Sparse A = List (ℕ → Slot A)

-- What a method does: it returns, it throws, or it faults.
pub data Result (A : Type 0) : Type 0 where
  returned : A → Result A
  throws : A → Result A
  fault : Result A

abbrev pub modify {ℓ} : {X : Type ℓ} → List X → ℕ → (X → X) → List X
modify [] k f = []
modify (x ∷ xs) zero f = f x ∷ xs
modify (x ∷ xs) (suc k) f = x ∷ modify xs k f

module _ {A : Type 0} where
  abbrev pub blank : Slot A
  blank = record { enable = false; object = none }

  -- `item_of`, and a write to it; `none` is outside the segments.
  unfoldable pub item_of : Sparse A → ℕ → Option (Slot A)
  item_of arr index =
      get_elem? arr (index / extend_array_size) >>= λ seg. some (seg (index % extend_array_size))

  unfoldable pub put : Sparse A → ℕ → Slot A → Sparse A
  put arr index s =
      modify arr (index / extend_array_size) (λ seg. update seg (index % extend_array_size) s)

  -- The constructor
  unfoldable pub new : (ℕ → Bool) → Result (Sparse A)
  new calloc = if calloc 0 then returned ((λ i. blank) ∷ []) else throws []

  -- The `while` loop of `set_impl`: false where there is no memory; `none` is no fuel left.
  unfoldable pub extend_loop : (ℕ → Bool) → ℕ → ℕ → Sparse A → Option (Bool × Sparse A)
  extend_loop calloc zero index arr = none
  extend_loop calloc (suc fuel) index arr =
      let rest = extend_loop calloc fuel index (arr ++ ((λ i. blank) ∷ [])) in
      if leb (length arr) (index / extend_array_size)
      then (if calloc (length arr) then rest else some (false, arr))
      else some (true, arr)

  -- `revert`, in the handler of `set`, which throws again
  abbrev pub revert_slot : Sparse A → ℕ → Option (Slot A) → Result (Sparse A)
  revert_slot arr index none = fault
  revert_slot arr index (some s) = throws (put arr index (record s { enable = false }))

  unfoldable pub revert : ℕ → Sparse A → Result (Sparse A)
  revert index arr = revert_slot arr index (item_of arr index)

  abbrev pub place : ℕ → A → Sparse A → Option (Slot A) → Result (Sparse A)
  place index v arr none = fault
  place index v arr (some s) = elim s.object [
    | none ↦ returned (put arr index (record s { object = some v }))
    | some old ↦ fault
  ]

  -- The new object in the memory of the item, or none where its constructor throws
  abbrev pub construct : ℕ → Option A → Sparse A → Result (Sparse A)
  construct index none arr = revert index arr
  construct index (some v) arr = place index v arr (item_of arr index)

  -- The rest of `set_impl`: an object that was there is destroyed.
  abbrev pub claim : ℕ → Option A → Sparse A → Bool → Option A → Result (Sparse A)
  claim index value arr true none = fault
  claim index value arr true (some old) =
      construct index value (put arr index (record { enable = true; object = none }))
  claim index value arr false object =
      construct index value (put arr index (record { enable = true; object = object }))

  abbrev pub claim_slot : ℕ → Option A → Sparse A → Option (Slot A) → Result (Sparse A)
  claim_slot index value arr none = fault
  claim_slot index value arr (some s) = claim index value arr s.enable s.object

  abbrev pub extended : ℕ → Option A → Option (Bool × Sparse A) → Result (Sparse A)
  extended index value none = fault
  extended index value (some (false, arr)) = revert index arr
  extended index value (some (true, arr)) = claim_slot index value arr (item_of arr index)

  unfoldable pub set : (ℕ → Bool) → ℕ → Option A → Sparse A → Result (Sparse A)
  set calloc index value arr =
      extended index value (extend_loop calloc (suc (suc (index / extend_array_size))) index arr)

  abbrev pub reset_object : ℕ → Sparse A → Option A → Result (Sparse A)
  reset_object index arr none = fault
  reset_object index arr (some v) = returned (put arr index blank)

  abbrev pub reset_slot : ℕ → Sparse A → Option (Slot A) → Result (Sparse A)
  reset_slot index arr none = fault
  reset_slot index arr (some s) = reset_object index arr s.object

  unfoldable pub reset : ℕ → Sparse A → Result (Sparse A)
  reset index arr = reset_slot index arr (item_of arr index)

  abbrev pub seen : Slot A → Option A
  seen s = if s.enable then s.object else none

  unfoldable pub get : ℕ → Sparse A → Option A
  get index arr =
      if ltb index (length arr * extend_array_size) then item_of arr index >>= seen else none

  -- `data` does not look at the flag.
  unfoldable pub data_of : ℕ → Sparse A → Option A
  data_of index arr = item_of arr index >>= λ s. s.object

  unfoldable pub test : ℕ → Sparse A → Bool
  test index arr =
      ltb index (length arr * extend_array_size)
      && elim (item_of arr index) [ none ↦ false | some s ↦ s.enable ]

  unfoldable pub capacity : Sparse A → ℕ
  capacity arr = length arr * extend_array_size

  -- The destructor, by the objects that it destroys, in order.
  abbrev pub destroy_object : Option A → Option (List A) → Option (List A)
  destroy_object none rest = none
  destroy_object (some v) rest = rest >>= λ vs. some (v ∷ vs)

  unfoldable pub destroy_items : ℕ → ℕ → (ℕ → Slot A) → Option (List A)
  destroy_items zero p seg = some []
  destroy_items (suc n) p seg =
      let rest = destroy_items n (p + 1) seg in
      if (seg p).enable then destroy_object (seg p).object rest else rest

  unfoldable pub destroy : Sparse A → Option (List A)
  destroy [] = some []
  destroy (seg ∷ segs) =
      destroy_items extend_array_size 0 seg >>= λ vs. destroy segs >>= λ ws. some (vs ++ ws)
