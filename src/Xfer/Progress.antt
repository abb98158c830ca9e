-- ===== src/Xfer/Progress.antt =====
-- The `for` loop of `xfer_impl::execute` (mpsrc/wavy_out.cc) after a writev of `wl` bytes: the part
-- that remains is what follows those bytes.
use mpio.Prelude.{
  ℕ, zero, suc, ◌+◌, ◌-◌, ◌<◌, ◌≤◌, ◌≡◌, refl, sym, ap, ◌∙◌, List, [], ◌∷◌, ◌++◌, append_assoc,
  append-nil, length, take, leb, ◌==◌, Bool-cases, inl, inr, arith,
}
use mpio.Os.{Iovec, total}
use mpio.Xfer.Command.{FitsVec, fill_iovec}
use mpio.Xfer.Items.{Item, mem, range, items_vec, length-range, range-split, take-append}
use mpio.Xfer.Execute.{Progress, finished, stopped, skip_written, unwritten}

-- `wl` bytes of `vec` are written, and `vec` begins at piece `i` of the command.
abbrev pub Skipped : List Iovec → ℕ → ℕ → Progress → Type 0
Skipped vec wl i finished = take wl (items_vec vec) ≡ items_vec vec
Skipped vec wl i (stopped j vec') =
    (items_vec vec ≡ take wl (items_vec vec) ++ items_vec vec')
    × FitsVec vec'
    × (length vec' + j ≡ length vec + i)
    × (0 < length vec')
    × (0 < total vec')

take-nil {ℓ} : (A : Type ℓ) (n : ℕ) → take {A = A} n [] ≡ []
take-nil A zero = refl
take-nil A (suc n) = refl

take-items_vec :
    (v : Iovec) (vs : List Iovec) (wl : ℕ)
    → v.iov_len ≤ wl
    → take wl (items_vec (v ∷ vs))
      ≡ range mem v.iov_base v.iov_len ++ take (wl - v.iov_len) (items_vec vs)
unfolding items_vec
take-items_vec v vs wl h =
    take-append (range mem v.iov_base v.iov_len) (items_vec vs) (wl - v.iov_len) wl
      (omega (arith, length-range mem v.iov_base v.iov_len))

-- A piece that is written whole is passed over.
Skipped-whole :
    (v : Iovec) (vs : List Iovec) (wl i : ℕ) (pr : Progress)
    → v.iov_len ≤ wl
    → Skipped vs (wl - v.iov_len) (i + 1) pr
    → Skipped (v ∷ vs) wl i pr
unfolding items_vec
Skipped-whole v vs wl i finished h s =
    take-items_vec v vs wl h ∙ ap (◌++◌ (range mem v.iov_base v.iov_len)) s
Skipped-whole v vs wl i (stopped j vec') h s = (
  ap (◌++◌ (range mem v.iov_base v.iov_len)) s.0
      ∙ sym (append_assoc (range mem v.iov_base v.iov_len) _ _)
      ∙ ap (λ xs. xs ++ items_vec vec') (sym (take-items_vec v vs wl h)),
  s.1,
  omega arith,
  s.3,
  s.4,
)

-- A piece that is written in part is cut.
items_vec-cut :
    (v : Iovec) (vs : List Iovec) (wl : ℕ)
    → wl < v.iov_len
    → items_vec (v ∷ vs)
      ≡ take wl (items_vec (v ∷ vs))
        ++ items_vec (record { iov_base = v.iov_base + wl; iov_len = v.iov_len - wl } ∷ vs)
unfolding items_vec
items_vec-cut v vs wl h = cut ∙ ap (λ xs. xs ++ rest) (sym front)
  where
    open v use {iov_base, iov_len}

    rest : List Item
    rest = range mem (iov_base + wl) (iov_len - wl) ++ items_vec vs

    cut : range mem iov_base iov_len ++ items_vec vs ≡ range mem iov_base wl ++ rest
    cut =
        ap (λ xs. xs ++ items_vec vs)
          (range-split mem iov_base wl (iov_len - wl) iov_len (omega arith))
        ∙ append_assoc (range mem iov_base wl) _ _

    front : take wl (range mem iov_base iov_len ++ items_vec vs) ≡ range mem iov_base wl
    front =
        ap (take wl) cut
        ∙ take-append (range mem iov_base wl) rest 0 wl
            (omega (arith, length-range mem iov_base wl))
        ∙ append-nil (range mem iov_base wl)

pub skip_written-Skipped :
    (i : ℕ) (vec : List Iovec) (wl : ℕ)
    → FitsVec vec
    → wl ≤ total vec
    → Skipped vec wl i (skip_written i vec wl)
unfolding skip_written items_vec
skip_written-Skipped i [] wl f h = take-nil _ wl
skip_written-Skipped i (v ∷ vs) wl f h = elim (Bool-cases (leb v.iov_len wl)) [
  | inl whole ↦ rw whole (
      Skipped-whole v vs wl i (skip_written (i + 1) vs (wl - v.iov_len)) (ground arith)
        (skip_written-Skipped (i + 1) vs (wl - v.iov_len) f.1 (ground arith)))
  | inr part ↦ rw part (
    items_vec-cut v vs wl (ground arith),
    (ground arith, f.1),
    omega arith,
    omega arith,
    ground arith,
  )
]

-- In both cases the buffer begins with an iovec command of the remaining pieces.
pub unwritten-eq :
    (veclen i : ℕ) (vec : List Iovec) (rest : List ℕ)
    → length vec + i ≡ veclen
    → unwritten veclen i vec rest ≡ fill_iovec vec ++ rest
unfolding unwritten fill_iovec
unwritten-eq veclen i vec rest h = elim (Bool-cases (i == 0)) [
  | inl first ↦ let e : length vec ≡ veclen = ground arith in rw (first, e)
  | inr later ↦ rw later
]
