-- ===== src/Xfer/Command.antt =====
-- The commands of a transfer buffer and their layout in memory: mpsrc/wavy_out.cc, `fill_*`,
-- `sizeof_*`, and the reads that `execute` and `clear` make through `p`.
-- Sizes are those of an LP64 system: 4 bytes for an int and for `xfer_type`, 8 for a pointer, a
-- size_t and a uint64_t. Such a scalar is the number of its bit pattern.
use mpio.Prelude.{
  ℕ, zero, suc, ◌+◌, ◌*◌, ◌/◌, ◌%◌, ◌^◌, ◌<◌, List, [], ◌∷◌, ◌++◌, Option, some, length, ◌==◌,
  if◌then◌else◌, ◌>>=◌,
}
use mpio.Os.{Iovec, total}
use mpio.Xfer.Bytes.{put, get}

-- `xfer_type`
abbrev pub xf_iovec : ℕ
xf_iovec = 0

abbrev pub xf_sendfile : ℕ
xf_sendfile = 1

abbrev pub xf_finalize : ℕ
xf_finalize = 3

-- What follows the `xfer_type`: iovecs, `xfer_sendfile` or `xfer_finalize`.
pub data Command : Type 0 where
  iovec : List Iovec → Command
  sendfile : (infd off len : ℕ) → Command
  finalize : (fin user : ℕ) → Command

abbrev pub sizeof_mem : ℕ
sizeof_mem = 4 + 16 * 1

abbrev pub sizeof_iovec : ℕ → ℕ
sizeof_iovec veclen = 4 + 16 * veclen

-- An int, 4 bytes of padding, a uint64_t and a size_t.
abbrev pub sizeof_sendfile : ℕ
sizeof_sendfile = 4 + 24

abbrev pub sizeof_finalize : ℕ
sizeof_finalize = 4 + 16

-- The `veclen` structs that `memcpy` copies.
unfoldable pub put_iovecs : List Iovec → List ℕ
put_iovecs [] = []
put_iovecs (v ∷ vs) = put 8 v.iov_base ++ (put 8 v.iov_len ++ put_iovecs vs)

-- The bytes that each `fill_*` writes, from `from` up to the pointer that it returns.
unfoldable pub fill_mem : ℕ → ℕ → List ℕ
fill_mem buf size = put 4 (1 * 2) ++ (put 8 buf ++ put 8 size)

unfoldable pub fill_iovec : List Iovec → List ℕ
fill_iovec vec = put 4 (length vec * 2 % 2 ^ 32) ++ put_iovecs vec

unfoldable pub fill_sendfile : ℕ → ℕ → ℕ → List ℕ
fill_sendfile infd off len =
    put 4 xf_sendfile ++ (put 4 infd ++ (put 4 0 ++ (put 8 off ++ put 8 len)))

unfoldable pub fill_finalize : ℕ → ℕ → List ℕ
fill_finalize fin user = put 4 xf_finalize ++ (put 8 fin ++ put 8 user)

abbrev pub fill : Command → List ℕ
fill (iovec vec) = fill_iovec vec
fill (sendfile infd off len) = fill_sendfile infd off len
fill (finalize fin user) = fill_finalize fin user

-- A buffer that holds the commands one after another.
abbrev pub fill_all : List Command → List ℕ
fill_all [] = []
fill_all (c ∷ cs) = fill c ++ fill_all cs

-- The reads through `p`; `none` is a read past `endp`.
unfoldable pub read_iovecs : ℕ → List ℕ → Option (List Iovec × List ℕ)
read_iovecs zero bs = some ([], bs)
read_iovecs (suc n) bs = do
  (base, r) ← get 8 bs
  (len, r') ← get 8 r
  (vs, r'') ← read_iovecs n r'
  some (record { iov_base = base; iov_len = len } ∷ vs, r'')

unfoldable pub read_sendfile : List ℕ → Option (Command × List ℕ)
read_sendfile bs = do
  (infd, r) ← get 4 bs
  (pad, r') ← get 4 r
  (off, r'') ← get 8 r'
  (len, rest) ← get 8 r''
  some (sendfile infd off len, rest)

unfoldable pub read_finalize : List ℕ → Option (Command × List ℕ)
read_finalize bs = do (fin, r) ← get 8 bs; (user, rest) ← get 8 r; some (finalize fin user, rest)

-- The command at `p`, and the memory behind it: `switch(*(xfer_type*)p)`.
unfoldable pub read_command : List ℕ → Option (Command × List ℕ)
read_command bs = get 4 bs >>= λ (tag, r).
    if tag == xf_sendfile
    then read_sendfile r
    else if tag == xf_finalize
    then read_finalize r
    else read_iovecs (tag / 2) r >>= λ (vec, rest). some (iovec vec, rest)

-- The fields fit their types, and a piece of memory or of a file ends within 64 bits.
abbrev pub FitsVec : List Iovec → Type 0
FitsVec [] = Unit
FitsVec (v ∷ vs) = (v.iov_base + v.iov_len < 2 ^ 64) × FitsVec vs

abbrev pub Fits : Command → Type 0
Fits (iovec vec) = (length vec < 2 ^ 31) × FitsVec vec
Fits (sendfile infd off len) = (infd < 2 ^ 32) × (off + len < 2 ^ 64)
Fits (finalize fin user) = (fin < 2 ^ 64) × (user < 2 ^ 64)

abbrev pub AllFit : List Command → Type 0
AllFit [] = Unit
AllFit (c ∷ cs) = Fits c × AllFit cs

-- No command is empty.
abbrev pub AllSome : List Command → Type 0
AllSome [] = Unit
AllSome (iovec vec ∷ cs) = (0 < total vec) × AllSome cs
AllSome (sendfile infd off len ∷ cs) = (0 < len) × AllSome cs
AllSome (finalize fin user ∷ cs) = AllSome cs
