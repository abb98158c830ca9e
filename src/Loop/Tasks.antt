-- ===== src/Loop/Tasks.antt =====
-- The tasks of mpsrc/wavy_loop.cc against a queue: those that were submitted, and those that a thread has
-- begun, over any run of the threads.
pub mod Taken
pub mod Fifo
use mpio.Prelude.{
  ℕ, ◌+◌, ◌≡◌, refl, sym, ap, ◌∙◌, List, [], ◌∷◌, ◌++◌, append-nil, append_assoc, Option, none,
  some, Bool, true, false, is_empty, get_elem?, ltb, length, drop, Bool-cases, inl, inr, ◌==◌,
  if◌then◌else◌,
}
use mpio.Os.{Reply}
use mpio.Out.{Event, ident, Polled, polled, throws, poll_event}
use mpio.Loop.{
  Phase, running, handling, Loop, System, start, Step, takes, takes_once, wakes, polls,
  polls_nothing, polls_nothing_once, poll_fails, asks_more, asks_next, asks_remove, returns, arms,
  writes, runs, submits, adds, removes, ends, Reach, here, after, more, next, remove_event, finish,
  submit, end, add_handler, remove_handler, do_task, do_queues, polled_out, process, found,
  from_backlog, poll_or_take, take_queued, take_more, take_work, once_queued, once_more, run_once,
  after_poll, disarm, poll_again, poll_returns,
}

-- The task that the thread is about to run.
abbrev pub begun_in : Phase → List ℕ
begun_in (running t last) = t ∷ []
begun_in _ = []

module _ {n oi : ℕ} where
  abbrev pub submitted_by : {s t : System} → Step n oi s t → List ℕ
  submitted_by (submits s t) = t ∷ []
  submitted_by _ = []

  abbrev pub begun_by : {s t : System} → Step n oi s t → List ℕ
  begun_by (takes s i reply ready lt e) = begun_in (take_work oi reply ready s.loop).0
  begun_by (takes_once s i reply ready lt e) = begun_in (run_once oi reply ready s.loop).0
  begun_by (polls s i reply ready es lt e some_es armed) =
      begun_in (after_poll oi reply ready es (disarm es s.loop)).0
  begun_by _ = []

  -- All the tasks of a run, in the order of its steps.
  unfoldable pub submitted : {s t : System} → Reach n oi s t → List ℕ
  submitted here = []
  submitted (after r st fresh) = submitted r ++ submitted_by st

  unfoldable pub begun : {s t : System} → Reach n oi s t → List ℕ
  begun here = []
  begun (after r st fresh) = begun r ++ begun_by st
