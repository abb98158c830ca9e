-- ===== src/Tests/Queues.antt =====
-- The theorems on sequences of calls of the class out (mpsrc/wavy_out.cc) at a kernel that takes at most
-- three bytes a call.
use mpio.Prelude.{◌<◌, refl, true, List, [], length, arith}
use mpio.Os.{Answers}
use mpio.Xfer.Command.{AllSome}
use mpio.Xfer.Items.{Item, range, mem, items, items_vec, items_all}
use mpio.Family.{update}
use mpio.Out.{init, write, write_event, commit}
use mpio.Out.Valid.{init-IsValid}
use mpio.Out.Accept.{Accepted, Taken}
use mpio.Out.Commit.{Committed, commit-Committed}
use mpio.Out.Flush.{Moved, write_event-Moved}
use mpio.Send.Sent.{headed, commands, send, send-Taken}
use mpio.Out.Write.{write-Accepted}
use mpio.Out.History.{Reached, behind, IsQueue, IsComplete}
use mpio.Out.History.Runs.{Reached-IsQueue, Reached-IsComplete}
use mpio.Tests.Sending.{
  slow, slow-IsLawful, any_size, two_commands, nothing, full, full-Holds, length-two_commands,
  watched, watched-IsValid,
}

pub slow-Answers : (blocked : Type 0) → Answers blocked slow
slow-Answers blocked = record {
  write_fine = λ w fd buf size h. omega (arith, h);
  writev_fine = λ w fd vec h. omega (arith, h);
  sendfile_fine = λ w fd infd off len h. omega (arith, h);
}

pub two_commands-AllSome : AllSome two_commands
two_commands-AllSome = (omega arith, tt)

few_items : length (items_all two_commands) < 7
unfolding items items_vec range
few_items = omega arith

-- What the write of five bytes leaves: three are sent.
five :
    (lost : List Item) × Accepted 8 nothing 5
      (range mem 100 5)
      lost
      (write any_size slow init 5 100 5 0)
five =
    write-Accepted any_size (λ n. refl) slow slow-IsLawful 8 nothing init (init-IsValid 8) 5
      (omega arith) (omega arith) 100 5 0 (omega arith)

Reached-IsQueue_example :
    IsQueue 8 five.1.step.out
      (behind (λ _. []) 5 (range mem 100 5))
      (behind (λ _. []) 5 five.1.step.log)
Reached-IsQueue_example =
    Reached-IsQueue any_size slow 8 (λ n. refl) slow-IsLawful five.1.step.out
      (behind (λ _. []) 5 (range mem 100 5)) (behind (λ _. []) 5 five.1.step.log)
      (Reached.writes 5 100 5 0 five.1.step Reached.start (omega arith) (omega arith) (omega arith)
        tt five.1.returns)

Reached-IsComplete_example :
    IsComplete 8 five.1.step.out
      (behind (λ _. []) 5 (range mem 100 5))
      (behind (λ _. []) 5 five.1.step.log)
Reached-IsComplete_example =
    Reached-IsComplete any_size slow 8 (λ n. refl) slow-IsLawful five.1.step.out
      (behind (λ _. []) 5 (range mem 100 5)) (behind (λ _. []) 5 five.1.step.log)
      (slow-Answers Unit)
      (Reached.writes 5 100 5 0 five.1.step Reached.start (omega arith) (omega arith) (omega arith)
        (omega arith) five.1.returns)

write_event-Moved_example :
    Moved true ⊥ 8 (update nothing 5 two_commands) 5 (write_event slow watched 5 0)
write_event-Moved_example =
    write_event-Moved slow slow-IsLawful 8 (update nothing 5 two_commands) watched watched-IsValid 5
      (omega arith) (λ e. absurd (cc)) true ⊥ 0 (slow-Answers ⊥) two_commands-AllSome

commit-Committed_example :
    Committed true 8 nothing 5 two_commands (commit any_size slow init 5 full 0)
commit-Committed_example =
    commit-Committed any_size (λ n. refl) true ⊥ slow slow-IsLawful 8 nothing init (init-IsValid 8)
      5 (omega arith) (omega arith) two_commands full 0 full-Holds
      (omega (arith, length-two_commands)) (slow-Answers ⊥) two_commands-AllSome

send-Taken_example :
    (lost : List Item) × Taken true 8 nothing 5
      (items_all (commands (headed 100 5 3 0 9) 7 1))
      lost
      (send any_size slow init 5 (headed 100 5 3 0 9) 7 1 0)
send-Taken_example =
    send-Taken any_size (λ n. refl) true ⊥ slow slow-IsLawful 8 nothing init (init-IsValid 8) 5
      (omega arith) (omega arith) (headed 100 5 3 0 9) 7 1 0
      (
        (omega arith, (omega arith, tt)),
        ((omega arith, omega arith), ((omega arith, omega arith), tt)),
      )
      (slow-Answers ⊥) tt (omega arith, (omega arith, tt))
