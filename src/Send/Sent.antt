-- ===== src/Send/Sent.antt =====
-- What the calls of loop that send (mpsrc/wavy_out.cc) hand to the buffer of the descriptor.
use mpio.Prelude.{
  ℕ, ◌^◌, ◌≤◌, ◌<◌, ◌≡◌, List, [], ◌∷◌, append-nil, Bool, true, false, length, arith,
}
use mpio.Memory.{Outcome, returned}
use mpio.Os.{Answers, Iovec, Os, IsLawful, Reply, Errno, is_transient}
use mpio.Xfer.Command.{Command, iovec, sendfile, finalize, fill_all, fill_finalize, AllFit, AllSome}
use mpio.Xfer.Execute.{execute, execute_loop, exec_command, exec_iovec}
use mpio.Xfer.Codec.{is_empty-fill, read_command-fill, length-fill_all-le, fill_mem_lem}
use mpio.Xfer.Items.{Item, items_all}
use mpio.Xfer.Buffer.{empty}
use mpio.Xfer.Push.{IsSmall}
use mpio.Out.{Out, Step, commit_raw}
use mpio.Out.Valid.{IsValid}
use mpio.Out.Accept.{Taken}
use mpio.Out.Commit.{commit_raw-Taken}
use mpio.Xfer.Ran.{When}
use mpio.Send.{write, writev, sendfile_to, hsendfile, hvsendfile}

-- A call that sends, without its finalizer.
pub data Request : Type 0 where
  memory : (buf size : ℕ) → Request
  vector : List Iovec → Request
  whole_file : (infd off size : ℕ) → Request
  headed : (header header_size infd off size : ℕ) → Request
  vector_headed : List Iovec → (infd off size : ℕ) → Request

-- The commands of the request, the finalizer last.
abbrev pub commands : Request → ℕ → ℕ → List Command
commands (memory buf size) fin user =
    iovec (record { iov_base = buf; iov_len = size } ∷ []) ∷ finalize fin user ∷ []
commands (vector vec) fin user = iovec vec ∷ finalize fin user ∷ []
commands (whole_file infd off size) fin user = sendfile infd off size ∷ finalize fin user ∷ []
commands (headed h n infd off size) fin user =
    iovec (record { iov_base = h; iov_len = n } ∷ [])
    ∷ sendfile infd off size
    ∷ finalize fin user
    ∷ []
commands (vector_headed vec infd off size) fin user =
    iovec vec ∷ sendfile infd off size ∷ finalize fin user ∷ []

module _ (realloc : ℕ → Bool) {W : Type 0} (os : Os W) (o : Out) (fd : ℕ) where
  -- The call of loop for a request.
  abbrev pub send : Request → (fin user : ℕ) → W → Outcome (Step W)
  send (memory buf size) = write realloc os o fd buf size
  send (vector vec) = writev realloc os o fd vec
  send (whole_file infd off size) = sendfile_to realloc os o fd infd off size
  send (headed h n infd off size) = hsendfile realloc os o fd h n infd off size
  send (vector_headed vec infd off size) = hvsendfile realloc os o fd vec infd off size

  send-eq-commit_raw :
      (r : Request) (fin user : ℕ) (w : W)
      → send r fin user w ≡ commit_raw realloc os o fd (fill_all (commands r fin user)) w
  unfolding write writev sendfile_to hsendfile hvsendfile
  send-eq-commit_raw (memory buf size) fin user w = rw (fill_mem_lem buf size, append-nil)
  send-eq-commit_raw (vector vec) fin user w = rw append-nil
  send-eq-commit_raw (whole_file infd off size) fin user w = rw append-nil
  send-eq-commit_raw (headed h n infd off size) fin user w = rw (fill_mem_lem h n, append-nil)
  send-eq-commit_raw (vector_headed vec infd off size) fin user w = rw append-nil

length-commands :
    (r : Request) (fin user : ℕ)
    → AllFit (commands r fin user)
    → length (fill_all (commands r fin user)) ≤ 2 ^ 62
length-commands r fin user f = omega (arith, length-fill_all-le (commands r fin user) f, few r)
  where
    few : (q : Request) → length (commands q fin user) ≤ 3
    few (memory buf size) = omega arith
    few (vector vec) = omega arith
    few (whole_file infd off size) = omega arith
    few (headed h n infd off size) = omega arith
    few (vector_headed vec infd off size) = omega arith

module _ (realloc : ℕ → Bool) (ample : (n : ℕ) → realloc n ≡ true) {W : Type 0} where
  -- Each call that sends keeps the invariant, where memory is ample and the descriptor's buffer
  -- is below 2 ^ 62 bytes: what the buffer held, the bytes of the request and then the call of
  -- its finalizer are done and then kept, in order, but for an end of the request that is lost,
  -- of which there is none where the buffer holds something afterwards. Where the kernel answers
  -- each request that is not empty and no command is, nothing is lost.
  pub send-Taken :
      (live : Bool) (blocked : Type 0) (os : Os W)
      → IsLawful os
      → (n : ℕ) (cmds : ℕ → List Command) (o : Out) → IsValid n cmds o
      → (fd : ℕ) → fd < n
      → IsSmall (o.fdctx fd)
      → (r : Request) (fin user : ℕ) (w : W) → AllFit (commands r fin user)
      → When live (Answers blocked os)
      → When live (AllSome (cmds fd))
      → When live (AllSome (commands r fin user))
      → (lost : List Item) × Taken live n cmds fd
          (items_all (commands r fin user))
          lost
          (send realloc os o fd r fin user w)
  send-Taken live blocked os lawful n cmds o v fd lt small r fin user w f answers held full =
      rw (send-eq-commit_raw realloc os o fd r fin user w) (
        commit_raw-Taken realloc ample live blocked os lawful n cmds o v fd lt small
          (commands r fin user) w f (length-commands r fin user f) answers held full)

-- Where the buffer of the descriptor is empty and writev fails with an error that is not
-- transient, a call that sends memory drops its request: nothing is sent, the finalizer is
-- neither called nor kept, and the descriptor is not shut down.
pub writev_drops_finalizer :
    (realloc : ℕ → Bool) {W : Type 0} (os : Os W) (o : Out) (fd : ℕ) (vec : List Iovec)
    (fin user : ℕ) (w : W) (e : Errno) (w' : W)
    → AllFit (commands (vector vec) fin user)
    → empty (o.fdctx fd) ≡ true
    → is_transient e ≡ false
    → os.writev w fd vec ≡ (Reply.failed e, w')
    → writev realloc os o fd vec fin user w
      ≡ returned (record { out = o; world = w'; log = []; result = false })
unfolding writev commit_raw execute execute_loop exec_command exec_iovec
writev_drops_finalizer realloc os o fd vec fin user w e w' f idle hard failed = rw idle (
    rw (is_empty-fill (iovec vec) (fill_finalize fin user), execute_loop)
      (rw (read_command-fill (iovec vec) (fill_finalize fin user) f.0)
        (rw (failed, exec_iovec) (rw hard))))
