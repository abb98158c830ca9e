-- ===== src/Os.antt =====
-- The system calls of the library, which the program does not implement: their replies as data, and
-- the calls as the fields of a record over an abstract world.
use mpio.Prelude.{ℕ, ◌≤◌, ◌<◌, ◌≡◌, List, [], ◌∷◌, ◌+◌, Bool, true, false}

-- The values of `errno` that the code tests for; any other is `other`.
pub data Errno : Type 0 where
  eagain eintr einprogress etimedout ebusy edeadlk : Errno
  other : ℕ → Errno

-- What a call returns: a value of at least 0, or -1 with `errno`.
pub data Reply : Type 0 where
  done : ℕ → Reply
  failed : Errno → Reply

-- `errno == EAGAIN || errno == EINTR`
abbrev pub is_transient : Errno → Bool
is_transient Errno.eagain = true
is_transient Errno.eintr = true
is_transient _ = false

-- `struct iovec`: the address and the length of a piece of memory.
pub record Iovec : Type 0 where
  pub iov_base : ℕ
  pub iov_len : ℕ

abbrev pub total : List Iovec → ℕ
total [] = 0
total (v ∷ vs) = v.iov_len + total vs

-- The calls that write to a descriptor: the world, the descriptor, then what is written.
pub record Os (W : Type 0) : Type 0 where
  pub write : W → ℕ → ℕ → ℕ → Reply × W
  pub writev : W → ℕ → List Iovec → Reply × W
  pub sendfile : W → ℕ → ℕ → ℕ → ℕ → Reply × W
  pub shutdown : W → ℕ → W

-- A call never reports more bytes than it was given (write(2), writev(2), sendfile(2)).
pub record IsLawful {W : Type 0} (os : Os W) : Type 0 where
  pub write_le : (w : W) (fd buf size n : ℕ) → (os.write w fd buf size).0 ≡ Reply.done n → n ≤ size
  pub writev_le :
      (w : W) (fd : ℕ) (vec : List Iovec) (n : ℕ)
      → (os.writev w fd vec).0 ≡ Reply.done n
      → n ≤ total vec
  pub sendfile_le :
      (w : W) (fd infd off len n : ℕ) → (os.sendfile w fd infd off len).0 ≡ Reply.done n → n ≤ len

-- A request that is not empty is answered with some bytes, or with an error that means to wait; `blocked`
-- says that the latter is possible.
abbrev pub Fine : Type 0 → Reply → Type 0
Fine blocked (Reply.done n) = 0 < n
Fine blocked (Reply.failed e) = (is_transient e ≡ true) × blocked

-- A kernel that reports no error of the connection.
pub record Answers {W : Type 0} (blocked : Type 0) (os : Os W) : Type 0 where
  pub write_fine : (w : W) (fd buf size : ℕ) → 0 < size → Fine blocked (os.write w fd buf size).0
  pub writev_fine :
      (w : W) (fd : ℕ) (vec : List Iovec) → 0 < total vec → Fine blocked (os.writev w fd vec).0
  pub sendfile_fine :
      (w : W) (fd infd off len : ℕ) → 0 < len → Fine blocked (os.sendfile w fd infd off len).0
