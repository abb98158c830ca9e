-- ===== src/Xfer/Codec.antt =====
-- What the `fill_*` functions of mpsrc/wavy_out.cc write is what `execute` and `clear` read.
use mpio.Prelude.{
  is_empty, ◌≤◌, ℕ, ◌*◌, ◌/◌, ◌%◌, ◌^◌, ◌<◌, ◌≡◌, refl, List, [], ◌∷◌, ◌++◌, some, false, length,
  length-append, append-nil, append_assoc, ◌==◌, arith,
}
use mpio.Os.{Iovec}
use mpio.Xfer.Bytes.{put, get-put, length-put}
use mpio.Xfer.Command.{
  AllFit, fill_all, Command, iovec, sendfile, finalize, sizeof_iovec, sizeof_sendfile,
  sizeof_finalize, put_iovecs, fill_mem, fill_iovec, fill_sendfile, fill_finalize, fill,
  read_iovecs, read_sendfile, read_finalize, read_command, FitsVec, Fits,
}

length-put_iovecs : (vec : List Iovec) → length (put_iovecs vec) ≡ 16 * length vec
unfolding put_iovecs
length-put_iovecs [] = refl
length-put_iovecs (v ∷ vs) = simp (length-append, length-put, length-put_iovecs vs) (omega arith)

pub length-fill_iovec : (vec : List Iovec) → length (fill_iovec vec) ≡ sizeof_iovec (length vec)
unfolding fill_iovec
length-fill_iovec vec = simp (length-append, length-put, length-put_iovecs vec)

pub length-fill_sendfile :
    (infd off len : ℕ) → length (fill_sendfile infd off len) ≡ sizeof_sendfile
unfolding fill_sendfile
length-fill_sendfile infd off len = simp (length-append, length-put)

pub length-fill_finalize : (fin user : ℕ) → length (fill_finalize fin user) ≡ sizeof_finalize
unfolding fill_finalize
length-fill_finalize fin user = simp (length-append, length-put)

-- A lone piece of memory is an iovec command of length 1.
pub fill_mem_lem :
    (buf size : ℕ) → fill_mem buf size ≡ fill_iovec (record { iov_base = buf; iov_len = size } ∷ [])
unfolding fill_mem fill_iovec put_iovecs
fill_mem_lem buf size = simp append-nil

read_iovecs-put_iovecs :
    (vec : List Iovec) (rest : List ℕ)
    → FitsVec vec
    → read_iovecs (length vec) (put_iovecs vec ++ rest) ≡ some (vec, rest)
unfolding read_iovecs put_iovecs
read_iovecs-put_iovecs [] rest f = refl
read_iovecs-put_iovecs (v ∷ vs) rest f = simp append_assoc (
    rw (get-put 8 v.iov_base _ (omega arith))
      (rw (get-put 8 v.iov_len _ (omega arith)) (rw (read_iovecs-put_iovecs vs rest f.1))))

-- The tag of an iovec command is even, so it is neither other tag, and it tells the length.
pub iovec_tag :
    (n : ℕ)
    → n < 2 ^ 31
    → ((n * 2 % 2 ^ 32 == 1) ≡ false) × ((n * 2 % 2 ^ 32 == 3) ≡ false) × (n * 2 % 2 ^ 32 / 2 ≡ n)
iovec_tag n h = (ground arith, ground arith, omega arith)

-- Where a command fits its fields, so that a vector has fewer than 2 ^ 31 pieces and each number
-- is below the bound of its type: the command that is read is the one that was written, and the
-- read ends where it ends.
pub read_command-fill :
    (c : Command) (rest : List ℕ) → Fits c → read_command (fill c ++ rest) ≡ some (c, rest)
unfolding read_command read_sendfile read_finalize fill_sendfile fill_finalize fill_iovec
read_command-fill (iovec vec) rest f = simp append_assoc (
    rw (get-put 4 (length vec * 2 % 2 ^ 32) _ (omega arith)) (
      rw
        (
          (iovec_tag (length vec) f.0).0,
          (iovec_tag (length vec) f.0).1,
          (iovec_tag (length vec) f.0).2,
        )
        (rw (read_iovecs-put_iovecs vec rest f.1))))
read_command-fill (sendfile infd off len) rest f = simp append_assoc (
    rw (get-put 4 1 _ (omega arith)) (
      rw (get-put 4 infd _ (omega arith)) (
        rw (get-put 4 0 _ (omega arith))
          (rw (get-put 8 off _ (omega arith)) (rw (get-put 8 len rest (omega arith)))))))
read_command-fill (finalize fin user) rest f = simp append_assoc (
    rw (get-put 4 3 _ (omega arith))
      (rw (get-put 8 fin _ (omega arith)) (rw (get-put 8 user rest (omega arith)))))

pub length-fill : (c : Command) → 4 ≤ length (fill c)
length-fill (iovec vec) = omega (arith, length-fill_iovec vec)
length-fill (sendfile infd off len) = omega (arith, length-fill_sendfile infd off len)
length-fill (finalize fin user) = omega (arith, length-fill_finalize fin user)

-- Every command takes bytes.
pub length-le-fill_all : (cs : List Command) → length cs ≤ length (fill_all cs)
length-le-fill_all [] = omega arith
length-le-fill_all (c ∷ cs) =
    omega (arith, length-le-fill_all cs, length-append (fill c) (fill_all cs), length-fill c)

pub is_empty-fill : (c : Command) (rest : List ℕ) → is_empty (fill c ++ rest) ≡ false
unfolding fill_iovec fill_sendfile fill_finalize put
is_empty-fill (iovec vec) rest = refl
is_empty-fill (sendfile infd off len) rest = refl
is_empty-fill (finalize fin user) rest = refl

length-fill-le : (c : Command) → Fits c → length (fill c) ≤ 2 ^ 36
length-fill-le (iovec vec) f = omega (arith, length-fill_iovec vec)
length-fill-le (sendfile infd off len) f = omega (arith, length-fill_sendfile infd off len)
length-fill-le (finalize fin user) f = omega (arith, length-fill_finalize fin user)

pub length-fill_all-le : (cs : List Command) → AllFit cs → length (fill_all cs) ≤ length cs * 2 ^ 36
length-fill_all-le [] f = omega arith
length-fill_all-le (c ∷ cs) f =
    omega
      (arith, length-append (fill c) (fill_all cs), length-fill-le c f.0, length-fill_all-le cs f.1)
