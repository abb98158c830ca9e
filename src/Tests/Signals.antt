-- ===== src/Tests/Signals.antt =====
-- The theorems on mp/signal.h in a world where every call succeeds but, if it says so, the one that
-- makes a thread.
use mpio.Prelude.{
  ℕ, zero, suc, ◌+◌, ◌<◌, ◌≡◌, refl, ap, some, Bool, true, false, ltb, if◌then◌else◌, arith,
}
use mpio.Os.{Reply, Errno}
use mpio.Family.{update}
use mpio.Signal.{
  Sigset, add, set_empty, sig_ign, Signals, block, set_signal, new, destroy, thread_main,
}
use mpio.Signal.Scoped.{IsLawful, destroy-new, round, rounds, thread_main-returns}

-- The actions, the blocked signals, whether a thread can be made, and how often a handler was called.
pub record World : Type 0 where
  actions : ℕ → ℕ
  blocked : Sigset
  starts : Bool
  count : ℕ

abbrev can_set : ℕ → Bool
can_set signo = true

abbrev set_action : World → ℕ → ℕ → (Reply × ℕ) × World
set_action w signo a =
    ((Reply.done 0, w.actions signo), record w { actions = update w.actions signo a })

abbrev signals : Signals World
signals = record {
  sigaction = set_action;
  sigprocmask =
      λ w b set. (Reply.done 0, record w { blocked = λ s. if set s then b else w.blocked s });
  start = λ w. (if w.starts then Reply.done 0 else Reply.failed Errno.eagain, w);
  sigwait = λ w set. (true, w);
}

abbrev value : Reply → ℕ
value (Reply.done n) = 1
value (Reply.failed e) = 0

signals-IsLawful : IsLawful signals World.actions World.blocked can_set
signals-IsLawful = record {
  sigaction_sets = λ w signo a s. ground arith;
  sigaction_done = λ w signo a n e. (refl, refl);
  sigaction_failed = λ w signo a e h. absurd (let z : 1 ≡ 0 = ap value h in omega arith);
  sigaction_mask = λ w signo a s. refl;
  sigprocmask_sets = λ w b set n s h. refl;
  sigprocmask_action = λ w b set s. refl;
  start_action = λ w s. refl;
}

-- Signal 3 is blocked, and no thread can be made.
abbrev world : World
world = record { actions = λ s. 0; blocked = add set_empty 3; starts = false; count = 0 }

abbrev can_start : World
can_start = record world { starts = true }

-- Signal 15 is ignored and blocked.
abbrev listening : World
listening = record can_start {
  actions = update (λ s. 0) 15 sig_ign;
  blocked = λ s. if add set_empty 15 s then true else add set_empty 3 s;
}

can_start-new : new signals 15 can_start ≡ (some 0, listening)
unfolding new set_signal block
can_start-new = refl

destroy-new_example : World.actions (destroy signals 15 0 listening) 15 ≡ 0
destroy-new_example =
    destroy-new signals World.actions World.blocked can_set signals-IsLawful 15 0 can_start
      listening can_start-new 15

-- A handler that stops at its third call.
abbrev three_times : World → Bool × World
three_times w = (ltb w.count 2, record w { count = w.count + 1 })

thread_main-returns_example :
    thread_main signals three_times 5 15 world ≡ some (rounds signals three_times 15 3 world)
thread_main-returns_example =
    thread_main-returns signals three_times 15 2 5 world (omega arith) goes_on refl
  where
    goes_on :
        (j : ℕ)
        → j < 2
        → (round signals three_times 15 (rounds signals three_times 15 j world)).0 ≡ true
    goes_on zero lt = refl
    goes_on (suc zero) lt = refl
    goes_on (suc (suc j)) lt = absurd (omega arith)
