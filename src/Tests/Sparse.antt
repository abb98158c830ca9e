-- ===== src/Tests/Sparse.antt =====
-- The theorems on mp/sparse_array.hmpl at an array that begins without a segment.
use mpio.Prelude.{ℕ, ◌≡◌, refl, [], some, Bool, true}
use mpio.SparseArray.{Sparse, returned, item_of, set, get, capacity, destroy}
use mpio.SparseArray.Destroy.{held, destroy-held}
use mpio.SparseArray.Slots.{IsValid}
use mpio.SparseArray.Changes.{Changed, set-Changed}

abbrev always : ℕ → Bool
always n = true

abbrev no_items : Sparse ℕ
no_items = []

no_items-IsValid : IsValid no_items
unfolding item_of
no_items-IsValid i s e = absurd (cc)

-- Two segments are made for index 70.
seventy : Changed no_items 70 (some 5) returned (set always 70 (some 5) no_items)
seventy = set-Changed always (λ n. refl) 70 (some 5) no_items no_items-IsValid

set-Changed_example :
    Changed seventy.after 3 (some 8) returned (set always 3 (some 8) seventy.after)
set-Changed_example = set-Changed always (λ n. refl) 3 (some 8) seventy.after seventy.valid

destroy-held_example :
    destroy seventy.after ≡ some (held (λ i. get i seventy.after) (capacity seventy.after) 0)
destroy-held_example = destroy-held seventy.after seventy.valid
