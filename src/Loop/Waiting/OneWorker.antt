-- ===== src/Loop/Waiting/OneWorker.antt =====
-- A loop of mpsrc/wavy_loop.cc with one worker thread.
use mpio.Prelude.{
  ℕ, ◌+◌, ◌≤◌, ◌<◌, ◌≡◌, ap, List, [], ◌∷◌, Option, none, some, true, get_elem?, length, ltb,
  Bool-cases, inl, inr, ◌==◌, arith, ltb→lt,
}
use mpio.Os.{Reply}
use mpio.Family.{count}
use mpio.Out.{Event, ident, Polled, polled, throws, poll_event}
use mpio.Loop.{
  Phase, idle, waiting, polling, stopped, poll_failed, crashed, overrun, handling, arming, running,
  writing, Loop, System, put, start, Step, takes, takes_once, wakes, polls, polls_nothing,
  polls_nothing_once, poll_fails, asks_more, asks_next, asks_remove, returns, arms, writes, runs,
  submits, adds, removes, ends, Reach, here, after, do_task, do_queues, polled_out, process, found,
  from_backlog, poll_or_take, take_queued, take_more, take_work, once_queued, once_more, run_once,
  after_poll, disarm, poll_again, poll_returns, more, next, remove_event, finish, end, submit,
  add_handler, remove_handler,
}
use mpio.Loop.Moves
use mpio.Loop.Moves.{free, InRange}
use mpio.Loop.Valid.{IsValid, Reach-IsValid}

-- The round of a thread beside which no other polls: it serves no report, and begins a task only where more
-- than 16 are queued.
abbrev pub Starves : Loop → Phase → Type 0
Starves l (writing e) = ⊥
Starves l (running t last) = 16 < length l.task_queue
Starves l _ = Unit

module _ (oi : ℕ) (reply : Reply) (ready : List Event) where
  process-Starves : (k : Loop) (e : Event) (l : Loop) → Starves k (process oi reply ready e l).0
  unfolding process
  process-Starves k e l = elim (Bool-cases (ident e == oi)) [
    | inl own ↦ rw own (out_lem (poll_event l.out reply ready))
    | inr other ↦ rw other tt
  ]
    where
      out_lem : (o : Polled) → Starves k (polled_out oi reply ready e l o).0
      out_lem (polled o) = tt
      out_lem (throws err) = tt

  found-Starves : (k : Loop) (x : Option Event) (l : Loop) → Starves k (found oi reply ready x l).0
  unfolding found
  found-Starves k none l = tt
  found-Starves k (some e) l = process-Starves k e (record l { off = l.off + 1 })

  poll_or_take-Starves : (l : Loop) → Starves l (poll_or_take oi reply ready l).0
  unfolding poll_or_take
  poll_or_take-Starves l = elim (Bool-cases (l.num == l.off)) [
    | inl none_left ↦ rw none_left tt
    | inr some_left ↦ rw some_left (found-Starves l (get_elem? l.backlog l.off) l)
  ]

  take_queued-Starves : (l : Loop) → l.pollable ≡ true → Starves l (take_queued oi reply ready l).0
  unfolding take_queued do_task
  take_queued-Starves l open_ = simp open_ (elim (Bool-cases (ltb 16 (length l.task_queue))) [
    | inl many ↦ rw many (task_lem l.task_queue (ltb→lt 16 (length l.task_queue) many))
    | inr few ↦ rw few (poll_or_take-Starves l)
  ])
    where
      task_lem : (ts : List ℕ) → 16 < length l.task_queue → Starves l (do_task ts l).0
      task_lem [] h = tt
      task_lem (t ∷ ts) h = h

  take_more-Starves :
      (q : List Event) (l : Loop) → l.pollable ≡ true → Starves l (take_more oi reply ready q l).0
  unfolding take_more
  take_more-Starves [] l open_ = take_queued-Starves l open_
  take_more-Starves (e ∷ es) l open_ = process-Starves l e (record l { more_queue = es })

  take_work-Starves : (l : Loop) → l.pollable ≡ true → Starves l (take_work oi reply ready l).0
  unfolding take_work
  take_work-Starves l open_ = elim (Bool-cases l.end_flag) [
    | inl over ↦ simp over tt
    | inr on ↦ simp on (take_more-Starves l.more_queue l open_)
  ]

-- A loop with one worker thread, where at first each descriptor is armed once at most and a
-- descriptor that is registered anew has no event left from before: a round of that thread never
-- serves a report of out, and begins a task only where more than 16 are queued.
pub one_worker-Starves :
    (oi : ℕ) (armed : ℕ → ℕ) (s : System) (reply : Reply) (ready : List Event)
    → ((d : ℕ) → armed d ≤ 1)
    → Reach 1 oi (start armed) s
    → s.phases 0 ≡ idle
    → Starves s.loop (take_work oi reply ready s.loop).0
unfolding count
one_worker-Starves oi armed s reply ready few r at =
    let v : IsValid 1 s = Reach-IsValid 1 oi armed few r in
    take_work-Starves oi reply ready s.loop
      (opened s.loop (omega (arith, v.poller, ap mpio.Loop.Moves.polls at)))
  where
    opened : (l : Loop) → free l ≡ 1 → l.pollable ≡ true
    opened l h = ground (arith, h)
