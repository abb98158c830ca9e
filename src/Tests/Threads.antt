-- ===== src/Tests/Threads.antt =====
-- The theorems on the loop at two threads: the first polls and handles an event of descriptor 7, the
-- second one of descriptor 8.
use mpio.Prelude.{
  ℕ, zero, suc, ◌≡◌, ◌≢◌, refl, ◌<◌, ◌+◌, true, [], ◌∷◌, false, ◌==◌, if◌then◌else◌, arith,
}
use mpio.Os.{Reply}
use mpio.Out.{ident}
use mpio.Family.{count}
use mpio.Loop.{
  found, process, handling, polling, take_work, take_more, take_queued, poll_or_take, after_poll,
  disarm, System, put, start, takes, polls, poll_fails, poll_failed, pending, held, Reach, here,
  after,
}
use mpio.Loop.Failures.{poll_failed-lasts}
use mpio.Loop.Kept.Reached.{one_event}
use mpio.Loop.Waiting.Up.{IsAlive, IsActive, some-IsActive}
use mpio.Loop.Valid.{one_handler}

abbrev armed : ℕ → ℕ
armed d = if d == 7 then 1 else if d == 8 then 1 else 0

abbrev first : System
first = put (start armed) 0 (take_work 3 (Reply.done 0) [] (start armed).loop)

abbrev second : System
second = put first 0 (after_poll 3 (Reply.done 0) [] (7 ∷ 8 ∷ []) (disarm (7 ∷ 8 ∷ []) first.loop))

abbrev third : System
third = put second 1 (take_work 3 (Reply.done 0) [] second.loop)

Reach-third : Reach 2 3 (start armed) third
unfolding take_work take_more take_queued poll_or_take
Reach-third =
    after
      (after (after here (takes (start armed) 0 (Reply.done 0) [] (omega arith) refl) tt)
        (polls first 0 (Reply.done 0) [] (7 ∷ 8 ∷ []) (omega arith) refl (omega arith)
          (λ d. ground arith))
        tt)
      (takes second 1 (Reply.done 0) [] (omega arith) refl) tt

first_polls : first.phases 0 ≡ polling
unfolding take_work take_more take_queued poll_or_take
first_polls = refl

first_handles : third.phases 0 ≡ handling 7 false false
unfolding take_work take_more take_queued poll_or_take after_poll found process
first_handles = refl

second_handles : third.phases 1 ≡ handling 8 false false
unfolding take_work take_more take_queued poll_or_take after_poll found process
second_handles = refl

Reach-first : Reach 2 3 (start armed) first
Reach-first = after here (takes (start armed) 0 (Reply.done 0) [] (omega arith) refl) tt

one_handler_example : ident 7 ≢ ident 8
one_handler_example =
    one_handler 2 3 armed third 0 1 7 8 false false (λ d. ground arith) Reach-third (omega arith)
      (omega arith) (λ e. omega (arith, e)) first_handles second_handles

-- The wait of the first thread fails.
abbrev stuck : System
stuck = put first 0 (poll_failed, first.loop)

abbrev stuck_later : System
stuck_later = put stuck 1 (take_work 3 (Reply.done 0) [] stuck.loop)

poll_failed-lasts_example :
    (stuck_later.loop.pollable ≡ false) × ((j : ℕ) → j < 2 → stuck_later.phases j ≢ polling)
poll_failed-lasts_example =
    poll_failed-lasts 2 3 armed stuck stuck_later 0 (λ d. ground arith)
      (after Reach-first (poll_fails first 0 (omega arith) first_polls) tt) (omega arith) refl
      (after here (takes stuck 1 (Reply.done 0) [] (omega arith) refl) tt)

third_handles : third.loop.handlers 8 ≡ true
unfolding take_work take_more take_queued poll_or_take after_poll found process
third_handles = refl

one_event_example : pending 8 third.loop + count (held 8) 2 third.phases ≡ 1
one_event_example =
    one_event 2 3 armed third 8 (λ d. ground arith) Reach-third (λ e. omega (arith, e))
      third_handles

third_on : third.loop.end_flag ≡ false
unfolding take_work take_more take_queued poll_or_take after_poll found process
third_on = refl

third-IsAlive : (i : ℕ) → i < 2 → IsAlive (third.phases i)
unfolding take_work take_more take_queued poll_or_take after_poll found process
third-IsAlive zero lt = tt
third-IsAlive (suc zero) lt = tt
third-IsAlive (suc (suc i)) lt = absurd (omega (arith, lt))

some-IsActive_example : (i : ℕ) × (i < 2) × IsActive (third.phases i)
some-IsActive_example =
    some-IsActive 2 3 armed third (λ d. ground arith) (omega arith) third-IsAlive Reach-third
      third_on
