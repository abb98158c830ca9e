-- ===== src/Loop/Tasks/Taken.antt =====
-- A round of mpsrc/wavy_loop.cc takes the first task of the queue, or none.
use mpio.Prelude.{
  ℕ, ◌+◌, ◌≡◌, refl, List, [], ◌∷◌, ◌++◌, Option, none, some, true, is_empty, get_elem?, ltb,
  length, drop, Bool-cases, inl, inr, ◌==◌,
}
use mpio.Os.{Reply}
use mpio.Out.{Event, ident, Polled, polled, throws, poll_event}
use mpio.Loop.{
  Phase, Loop, do_task, do_queues, polled_out, process, found, poll_or_take, take_queued, take_more,
  take_work, once_queued, once_more, run_once, after_poll,
}
use mpio.Loop.Tasks.{begun_in}

-- What a round leaves of the queue: the task that it takes was the first.
abbrev pub Takes : Loop → Phase × Loop → Type 0
Takes l r = l.task_queue ≡ begun_in r.0 ++ r.1.task_queue

module _ (oi : ℕ) (reply : Reply) (ready : List Event) where
  process-Takes : (e : Event) (l : Loop) → Takes l (process oi reply ready e l)
  unfolding process
  process-Takes e l = elim (Bool-cases (ident e == oi)) [
    | inl own ↦ rw own (out_lem (poll_event l.out reply ready))
    | inr other ↦ rw other refl
  ]
    where
      out_lem : (o : Polled) → Takes l (polled_out oi reply ready e l o)
      out_lem (polled o) = refl
      out_lem (throws err) = refl

  found-Takes : (x : Option Event) (l : Loop) → Takes l (found oi reply ready x l)
  unfolding found
  found-Takes none l = refl
  found-Takes (some e) l = process-Takes e (record l { off = l.off + 1 })

  do_task-Takes : (ts : List ℕ) (l : Loop) → l.task_queue ≡ ts → Takes l (do_task ts l)
  unfolding do_task
  do_task-Takes [] l e = refl
  do_task-Takes (t ∷ ts) l e = e

  do_queues-Takes : (es : List Event) (l : Loop) → Takes l (do_queues es l)
  unfolding do_queues
  do_queues-Takes [] l = do_task-Takes l.task_queue l refl
  do_queues-Takes (e ∷ es) l = refl

  poll_or_take-Takes : (l : Loop) → Takes l (poll_or_take oi reply ready l)
  unfolding poll_or_take
  poll_or_take-Takes l = elim (Bool-cases (l.num == l.off)) [
    | inl none_left ↦ rw none_left refl
    | inr some_left ↦ rw some_left (found-Takes (get_elem? l.backlog l.off) l)
  ]

  take_queued-Takes : (l : Loop) → Takes l (take_queued oi reply ready l)
  unfolding take_queued
  take_queued-Takes l = elim (Bool-cases l.pollable) [
    | inr closed ↦ simp closed (do_queues-Takes l.out.queue l)
    | inl open_ ↦ simp open_ (elim (Bool-cases (ltb 16 (length l.task_queue))) [
      | inl many ↦ rw many (do_task-Takes l.task_queue l refl)
      | inr few ↦ rw few (poll_or_take-Takes l)
    ])
  ]

  once_queued-Takes : (l : Loop) → Takes l (once_queued oi reply ready l)
  unfolding once_queued
  once_queued-Takes l = elim (Bool-cases l.pollable) [
    | inr closed ↦ simp closed (do_queues-Takes l.out.queue l)
    | inl open_ ↦ simp open_ (elim (Bool-cases (is_empty l.task_queue)) [
      | inr tasks ↦ rw tasks (do_task-Takes l.task_queue l refl)
      | inl no_tasks ↦ rw no_tasks (elim (Bool-cases (is_empty l.out.queue)) [
        | inr writes_ ↦ rw writes_ (do_queues-Takes l.out.queue l)
        | inl no_writes ↦ rw no_writes (poll_or_take-Takes l)
      ])
    ])
  ]

  take_more-Takes : (q : List Event) (l : Loop) → Takes l (take_more oi reply ready q l)
  unfolding take_more
  take_more-Takes [] l = take_queued-Takes l
  take_more-Takes (e ∷ es) l = process-Takes e (record l { more_queue = es })

  once_more-Takes : (q : List Event) (l : Loop) → Takes l (once_more oi reply ready q l)
  unfolding once_more
  once_more-Takes [] l = once_queued-Takes l
  once_more-Takes (e ∷ es) l = process-Takes e (record l { more_queue = es })

  pub take_work-Takes : (l : Loop) → Takes l (take_work oi reply ready l)
  unfolding take_work
  take_work-Takes l = elim (Bool-cases l.end_flag) [
    | inl over ↦ simp over refl
    | inr on ↦ simp on (take_more-Takes l.more_queue l)
  ]

  pub run_once-Takes : (l : Loop) → Takes l (run_once oi reply ready l)
  unfolding run_once
  run_once-Takes l = elim (Bool-cases l.end_flag) [
    | inl over ↦ simp over refl
    | inr on ↦ simp on (once_more-Takes l.more_queue l)
  ]

  pub after_poll-Takes : (es : List Event) (l : Loop) → Takes l (after_poll oi reply ready es l)
  unfolding after_poll
  after_poll-Takes es l =
      let full : Loop = record l {
        off = 0;
        num = length es;
        pollable = true;
        backlog = es ++ drop (length es) l.backlog;
      } in
      found-Takes (get_elem? full.backlog 0) full
