-- ===== src/Tests/Sending.antt =====
-- The theorems on the buffers of mpsrc/wavy_out.cc at a kernel that takes at most three bytes a call.
use mpio.Prelude.{
  ℕ, ◌+◌, ◌≡◌, refl, ap, List, [], ◌∷◌, ◌++◌, some, Bool, true, false, length, arith,
}
use Prim.Native.Nat.{min}
use mpio.Memory.{returned}
use mpio.Os.{Errno, Reply, Iovec, total, Os, IsLawful}
use mpio.Family.{update}
use mpio.Xfer.Bytes.{put}
use mpio.Xfer.Command.{
  Command, iovec, sendfile, finalize, fill_iovec, put_iovecs, fill_finalize, fill, fill_all,
  read_command, AllFit,
}
use mpio.Xfer.Items.{items_all}
use mpio.Xfer.Codec.{read_command-fill}
use mpio.Xfer.Execute.{execute}
use mpio.Xfer.Ran.{Executed}
use mpio.Xfer.Order.{execute-Executed}
use mpio.Xfer.Buffer.{Xfer, clear}
use mpio.Xfer.Push.{Holds, Returns, push, push-Returns}
use mpio.Xfer.Clear.{calls_of, clear_lem}
use mpio.Out.{Out, init, add_fd}
use mpio.Out.Valid.{IsValid, init-IsValid, IsValid-set}
use mpio.Send.{writev}
use mpio.Send.Sent.{writev_drops_finalizer}

-- The world counts the calls.
abbrev pub slow : Os ℕ
slow = record {
  write = λ w fd buf size. (Reply.done (min size 3), w + 1);
  writev = λ w fd vec. (Reply.done (min (total vec) 3), w + 1);
  sendfile = λ w fd infd off len. (Reply.done (min len 3), w + 1);
  shutdown = λ w fd. w;
}

abbrev value : Reply → ℕ
value (Reply.done n) = n
value (Reply.failed e) = 0

pub slow-IsLawful : IsLawful slow
slow-IsLawful = record {
  write_le = λ w fd buf size n e. omega (arith, ap value e);
  writev_le = λ w fd vec n e. omega (arith, ap value e);
  sendfile_le = λ w fd infd off len n e. omega (arith, ap value e);
}

-- A kernel that refuses every call.
abbrev broken : Os ℕ
broken = record {
  write = λ w fd buf size. (Reply.failed (Errno.other 32), w);
  writev = λ w fd vec. (Reply.failed (Errno.other 32), w);
  sendfile = λ w fd infd off len. (Reply.failed (Errno.other 32), w);
  shutdown = λ w fd. w;
}

abbrev pub any_size : ℕ → Bool
any_size n = true

abbrev five_bytes : List Iovec
five_bytes = record { iov_base = 100; iov_len = 5 } ∷ []

-- Five bytes and a finalizer.
abbrev pub two_commands : List Command
two_commands = iovec five_bytes ∷ finalize 7 1 ∷ []

pub two_commands-AllFit : AllFit two_commands
two_commands-AllFit = ((omega arith, (omega arith, tt)), ((omega arith, omega arith), tt))

abbrev pub full : Xfer
full = record { allocated = true; used = fill_all two_commands; free = 10 }

pub length-two_commands : length (fill_all two_commands) ≡ 40
unfolding fill_iovec fill_finalize put_iovecs put
length-two_commands = refl

pub full-Holds : Holds two_commands full
full-Holds = record {
  bytes = refl;
  fit = two_commands-AllFit;
  capacity = omega (arith, length-two_commands);
  unallocated = λ a. absurd (ground arith);
}

abbrev pub nothing : ℕ → List Command
nothing i = []

-- Descriptor 5 is watched.
abbrev pub watched : Out
watched = record {
  fdctx = update init.fdctx 5 full;
  watching = 1;
  queue = [];
  calls = add_fd 5 ∷ [];
}

pub watched-IsValid : IsValid 8 (update nothing 5 two_commands) watched
watched-IsValid =
    IsValid-set 8 nothing init 5 two_commands full 1 (add_fd 5 ∷ []) [] (init-IsValid 8)
      (omega arith) full-Holds refl refl (λ j ne. ground arith)

writev_drops_finalizer_example :
    writev any_size broken init 5 five_bytes 7 1 0
    ≡ returned (record { out = init; world = 0; log = []; result = false })
writev_drops_finalizer_example =
    writev_drops_finalizer any_size broken init 5 five_bytes 7 1 0 (Errno.other 32) 0
      two_commands-AllFit refl refl refl

execute-Executed_example : Executed two_commands (execute slow 5 (fill_all two_commands) 0)
execute-Executed_example = execute-Executed slow slow-IsLawful 5 two_commands 0 two_commands-AllFit

push-Returns_example :
    Returns (two_commands ++ (finalize 9 2 ∷ [])) (push any_size full (finalize 9 2))
push-Returns_example =
    push-Returns any_size (λ n. refl) two_commands full (finalize 9 2) full-Holds
      (omega (arith, length-two_commands)) (omega arith, omega arith)

clear_lem_example :
    clear full
    ≡ some
        (calls_of (items_all two_commands), record full { used = []; free = length full.used + 10 })
clear_lem_example = clear_lem two_commands full full-Holds

read_command-fill_example :
    read_command (fill (sendfile 3 0 9) ++ (1 ∷ [])) ≡ some (sendfile 3 0 9, 1 ∷ [])
read_command-fill_example = read_command-fill (sendfile 3 0 9) (1 ∷ []) (omega arith, omega arith)
