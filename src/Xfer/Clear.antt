-- ===== src/Xfer/Clear.antt =====
-- `xfer::clear` (mpsrc/wavy_out.cc): the finalizers that it calls.
use mathlib.Core.Path.{ap₂}
use mpio.Prelude.{
  ℕ, zero, suc, ◌+◌, ◌*◌, ◌%◌, ◌^◌, ◌<◌, ◌≡◌, refl, ap, ◌∙◌, List, [], ◌∷◌, ◌++◌, some,
  append_assoc, Bool-cases, inl, inr, length, drop, ◌==◌, arith,
}
use mpio.Memory.{add_size}
use mpio.Os.{Iovec}
use mpio.Xfer.Bytes.{put, get, get-put}
use mpio.Xfer.Command.{
  Command, iovec, sendfile, finalize, fill, fill_all, fill_iovec, fill_sendfile, fill_finalize,
  Fits, AllFit, put_iovecs,
}
use mpio.Xfer.Codec.{
  length-fill_iovec, length-fill_sendfile, length-fill_finalize, iovec_tag, is_empty-fill,
  length-le-fill_all,
}
use mpio.Xfer.Items.{Item, mem, file, call, range, items_vec, items, items_all}
use mpio.Xfer.Buffer.{Xfer, sizeof_tag, called, clear_loop, clear}
use mpio.Xfer.Push.{Holds}

-- The calls among the items, in order.
abbrev pub calls_of : List Item → List Item
calls_of [] = []
calls_of (call fin user ∷ xs) = call fin user ∷ calls_of xs
calls_of (x ∷ xs) = calls_of xs

pub calls_of-append : (xs ys : List Item) → calls_of (xs ++ ys) ≡ calls_of xs ++ calls_of ys
calls_of-append [] ys = refl
calls_of-append (call fin user ∷ xs) ys = ap (◌∷◌ (call fin user)) (calls_of-append xs ys)
calls_of-append (mem a ∷ xs) ys = calls_of-append xs ys
calls_of-append (file f o ∷ xs) ys = calls_of-append xs ys

calls_of-mem : (b n : ℕ) → calls_of (range mem b n) ≡ []
unfolding range
calls_of-mem b zero = refl
calls_of-mem b (suc n) = calls_of-mem (b + 1) n

calls_of-file : (infd b n : ℕ) → calls_of (range (file infd) b n) ≡ []
unfolding range
calls_of-file infd b zero = refl
calls_of-file infd b (suc n) = calls_of-file infd (b + 1) n

calls_of-items_vec : (vec : List Iovec) → calls_of (items_vec vec) ≡ []
unfolding items_vec
calls_of-items_vec [] = refl
calls_of-items_vec (v ∷ vs) =
    calls_of-append (range mem v.iov_base v.iov_len) (items_vec vs)
    ∙ ap₂ ◌++◌ (calls_of-mem v.iov_base v.iov_len) (calls_of-items_vec vs)

drop-append : {A : Type 0} (xs ys : List A) (n : ℕ) → length xs ≡ n → drop n (xs ++ ys) ≡ ys
drop-append [] ys zero h = refl
drop-append [] ys (suc n) h = absurd (omega arith)
drop-append (x ∷ xs) ys zero h = absurd (omega arith)
drop-append (x ∷ xs) ys (suc n) h = drop-append xs ys n (omega arith)

abbrev tag : Command → ℕ
tag (iovec vec) = length vec * 2 % 2 ^ 32
tag (sendfile infd off len) = 1
tag (finalize fin user) = 3

abbrev body : Command → List ℕ
body (iovec vec) = put_iovecs vec
body (sendfile infd off len) = put 4 infd ++ (put 4 0 ++ (put 8 off ++ put 8 len))
body (finalize fin user) = put 8 fin ++ put 8 user

get-fill : (c : Command) (rest : List ℕ) → get 4 (fill c ++ rest) ≡ some (tag c, body c ++ rest)
unfolding fill_iovec fill_sendfile fill_finalize
get-fill (iovec vec) rest = rw append_assoc (get-put 4 (length vec * 2 % 2 ^ 32) _ (omega arith))
get-fill (sendfile infd off len) rest = simp append_assoc (get-put 4 1 _ (omega arith))
get-fill (finalize fin user) rest = simp append_assoc (get-put 4 3 _ (omega arith))

length-fill-sizeof_tag : (c : Command) → Fits c → length (fill c) ≡ sizeof_tag (tag c)
length-fill-sizeof_tag (iovec vec) f =
    rw
      (
        (iovec_tag (length vec) f.0).0,
        (iovec_tag (length vec) f.0).1,
        (iovec_tag (length vec) f.0).2,
      )
      (length-fill_iovec vec)
length-fill-sizeof_tag (sendfile infd off len) f = length-fill_sendfile infd off len
length-fill-sizeof_tag (finalize fin user) f = length-fill_finalize fin user

called-body :
    (c : Command) (rest : List ℕ)
    → Fits c
    → called (tag c) (body c ++ rest) ≡ some (calls_of (items c))
unfolding called items
called-body (iovec vec) rest f = rw (iovec_tag (length vec) f.0).1 (rw (calls_of-items_vec vec))
called-body (sendfile infd off len) rest f = rw (calls_of-file infd off len)
called-body (finalize fin user) rest f = simp append_assoc (
    rw (get-put 8 fin _ (omega arith)) (
      rw (get-put 8 user rest (omega arith))
        (elim (Bool-cases (fin == 0)) [ inl null ↦ rw null | inr there ↦ rw there ])))

clear_loop-fill_all :
    (fuel : ℕ) (cs : List Command)
    → length cs < fuel
    → AllFit cs
    → clear_loop fuel (fill_all cs) ≡ some (calls_of (items_all cs))
unfolding clear_loop
clear_loop-fill_all zero cs h f = absurd (omega arith)
clear_loop-fill_all (suc fuel) [] h f = refl
clear_loop-fill_all (suc fuel) (c ∷ cs) h f =
    rw (is_empty-fill c (fill_all cs), clear_loop)
      (rw (get-fill c (fill_all cs)) (
        rw (called-body c (fill_all cs) f.0) (
          rw (drop-append (fill c) (fill_all cs) _ (length-fill-sizeof_tag c f.0)) (
            rw (
              clear_loop-fill_all fuel cs (omega arith) f.1,
              calls_of-append (items c) (items_all cs),
            )))))

-- `clear` on a buffer that holds `cs` calls exactly the finalizers among the commands that are
-- not NULL, in order, and sends nothing. The buffer is then empty, and its whole size is free.
pub clear_lem :
    (cs : List Command) (x : Xfer)
    → Holds cs x
    → clear x
      ≡ some (calls_of (items_all cs), record x { used = []; free = length x.used + x.free })
unfolding clear
clear_lem cs x h =
    rw
      (ap (λ u. clear_loop (suc (length u)) u) h.bytes
        ∙ clear_loop-fill_all (suc (length (fill_all cs))) cs (omega (arith, length-le-fill_all cs))
            h.fit)
      (ap (λ n. some (calls_of (items_all cs), record x { used = []; free = n })) size)
  where
    size : add_size x.free (length x.used) ≡ length x.used + x.free
    size = omega (arith, h.capacity)
