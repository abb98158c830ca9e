-- ===== src/Xfer/Items.antt =====
-- What a transfer buffer stands for: the bytes to send and the finalizers to call, in order.
use mpio.Prelude.{
  ℕ, zero, suc, ◌+◌, ◌≤◌, ◌≡◌, refl, ap, ◌∙◌, List, [], ◌∷◌, ◌++◌, length, length-append, take,
  ◌==◌, if◌then◌else◌, arith,
}
use mpio.Os.{Iovec, total}
use mpio.Xfer.Command.{Command, iovec, sendfile, finalize}

-- A byte of memory, a byte of a file, or a call of a finalizer.
pub data Item : Type 0 where
  mem : (address : ℕ) → Item
  file : (infd off : ℕ) → Item
  call : (fin user : ℕ) → Item

unfoldable pub range : (ℕ → Item) → ℕ → ℕ → List Item
range f b zero = []
range f b (suc n) = f b ∷ range f (b + 1) n

unfoldable pub items_vec : List Iovec → List Item
items_vec [] = []
items_vec (v ∷ vs) = range mem v.iov_base v.iov_len ++ items_vec vs

-- A finalizer that is NULL is not called.
unfoldable pub items : Command → List Item
items (iovec vec) = items_vec vec
items (sendfile infd off len) = range (file infd) off len
items (finalize fin user) = if fin == 0 then [] else call fin user ∷ []

abbrev pub items_all : List Command → List Item
items_all [] = []
items_all (c ∷ cs) = items c ++ items_all cs

pub length-range : (f : ℕ → Item) (b n : ℕ) → length (range f b n) ≡ n
unfolding range
length-range f b zero = refl
length-range f b (suc n) = ap suc (length-range f (b + 1) n)

-- A range of `m` items is cut after `n` of them.
pub range-split :
    (f : ℕ → Item) (b n k m : ℕ) → m ≡ n + k → range f b m ≡ range f b n ++ range f (b + n) k
unfolding range
range-split f b zero k m e =
    ap (λ i. range f i m) (omega arith) ∙ ap (range f (b + 0)) (omega arith)
range-split f b (suc n) k zero e = absurd (omega arith)
range-split f b (suc n) k (suc m) e = ap (◌∷◌ (f b)) (
    range-split f (b + 1) n k m (omega arith)
    ∙ ap (λ i. range f (b + 1) n ++ range f i k) (omega arith))

pub take-append {ℓ} :
    {A : Type ℓ} (xs ys : List A) (k n : ℕ)
    → n ≡ length xs + k
    → take n (xs ++ ys) ≡ xs ++ take k ys
take-append [] ys k n e = ap (λ i. take i ys) (omega arith)
take-append (x ∷ xs) ys k zero e = absurd (omega arith)
take-append (x ∷ xs) ys k (suc n) e = ap (◌∷◌ x) (take-append xs ys k n (omega arith))

pub length-items_vec : (vec : List Iovec) → length (items_vec vec) ≡ total vec
unfolding items_vec
length-items_vec [] = refl
length-items_vec (v ∷ vs) = omega (
  arith,
  length-append (range mem v.iov_base v.iov_len) (items_vec vs),
  length-range mem v.iov_base v.iov_len,
  length-items_vec vs,
)

pub length-take {ℓ} : {A : Type ℓ} (n : ℕ) (xs : List A) → n ≤ length xs → length (take n xs) ≡ n
length-take zero xs h = refl
length-take (suc n) [] h = absurd (omega arith)
length-take (suc n) (x ∷ xs) h = ap suc (length-take n xs (omega arith))
