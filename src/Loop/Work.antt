-- ===== src/Loop/Work.antt =====
-- How a thread takes its work in mpsrc/wavy_loop.cc: a round of `thread_main`, and the events of a poll.
use mpio.Prelude.{
  is_empty, ℕ, zero, suc, ◌+◌, ◌-◌, ◌≤◌, ◌<◌, ◌≡◌, refl, ap, ◌∙◌, List, [], ◌∷◌, ◌++◌, some, true,
  length, get_elem?, take, drop, ltb, ◌==◌, if◌then◌else◌, Bool-cases, inl, inr, arith, append-nil,
  length-append,
}
use mpio.Os.{Reply}
use mpio.Xfer.Items.{take-append}
use mpio.Out.{Event, ident, Polled, polled, throws, poll_event}
use mpio.Loop.{
  Phase, polling, idle, Loop, do_task, do_queues, polled_out, process, found, from_backlog,
  poll_or_take, take_queued, take_more, take_work, once_queued, once_more, run_once, after_poll,
  occurs, disarm, unread, pending, held,
}
use mpio.Loop.Moves.{polls, overruns, free, InRange, Moves}

-- What `process_handler` does with an event that is not queued any more.
record Processed (e : Event) (l : Loop) (r : Phase × Loop) : Type 0 where
  range : InRange r.1
  poller : polls r.0 + free r.1 ≡ free l
  inside : overruns r.0 ≡ 0
  tokens : (d : ℕ) → pending d r.1 + held d r.0 ≤ pending d l + (if ident e == d then 1 else 0)

pub record Unread (xs : List Event) (off num : ℕ) : Type 0 where
  pub event : Event
  pub element : get_elem? xs off ≡ some event
  pub first : take (num - off) (drop off xs) ≡ event ∷ take (num - (off + 1)) (drop (off + 1) xs)

-- There is a next event below `num`.
pub unread_lem : (xs : List Event) (off num : ℕ) → off < num → num ≤ length xs → Unread xs off num
unread_lem [] off num lt le = absurd (omega arith)
unread_lem (x ∷ xs) off zero lt le = absurd (omega arith)
unread_lem (x ∷ xs) zero (suc m) lt le = record {
  event = x;
  element = refl;
  first =
      let all : suc m - 0 ≡ suc m = omega arith in
      let rest : suc m - 1 ≡ m = omega arith in rw (all, rest) refl;
}
unread_lem (x ∷ xs) (suc k) (suc m) lt le =
    let u : Unread xs k m = unread_lem xs k m (omega arith) (omega arith) in
    record {
      event = u.event;
      element = u.element;
      first =
          ap (λ n. take n (drop k xs)) (omega arith)
          ∙ u.first
          ∙ ap (λ n. u.event ∷ take n (drop (k + 1) xs)) (omega arith)
          ∙ ap (λ i. u.event ∷ take (suc m - (suc k + 1)) (drop i (x ∷ xs)))
              (let next_one : suc (k + 1) ≡ suc k + 1 = omega arith in next_one);
    }

module _ (oi : ℕ) (reply : Reply) (ready : List Event) where
  process-Processed :
      (e : Event) (l : Loop) → InRange l → Processed e l (process oi reply ready e l)
  unfolding process pending
  process-Processed e l range = elim (Bool-cases (ident e == oi)) [
    | inl own ↦ rw own (out_lem (poll_event l.out reply ready))
    | inr other ↦
        rw other
          (record { range = range; poller = omega arith; inside = refl; tokens = λ d. omega arith })
  ]
    where
      out_lem : (o : Polled) → Processed e l (polled_out oi reply ready e l o)
      out_lem (polled o) = record {
        range = range;
        poller = omega arith;
        inside = refl;
        tokens = λ d. omega arith;
      }
      out_lem (throws err) = record {
        range = range;
        poller = omega arith;
        inside = refl;
        tokens = λ d. omega arith;
      }

  from_backlog-Moves :
      (p : Phase) (l : Loop)
      → InRange l
      → l.off < l.num
      → polls p ≡ 0
      → Moves p l (from_backlog oi reply ready l)
  unfolding found pending
  from_backlog-Moves p l (le, le') lt none_polls = rw u.element (record {
    range = t.range;
    poller = omega (arith, t.poller);
    inside = t.inside;
    tokens = λ d. omega (arith, t.tokens d, ap (occurs d) u.first);
  })
    where
      u : Unread l.backlog l.off l.num
      u = unread_lem l.backlog l.off l.num lt le'

      t :
          Processed u.event
            (record l { off = l.off + 1 })
            (process oi reply ready u.event (record l { off = l.off + 1 }))
      t = process-Processed u.event (record l { off = l.off + 1 }) (omega arith, le')

  do_task-Moves : (ts : List ℕ) (l : Loop) → InRange l → Moves idle l (do_task ts l)
  unfolding do_task pending
  do_task-Moves [] l range = record {
    range = range;
    poller = refl;
    inside = refl;
    tokens = λ d. omega arith;
  }
  do_task-Moves (t ∷ ts) l range = record {
    range = range;
    poller = refl;
    inside = refl;
    tokens = λ d. omega arith;
  }

  do_queues-Moves : (es : List Event) (l : Loop) → InRange l → Moves idle l (do_queues es l)
  unfolding do_queues pending
  do_queues-Moves [] l range = do_task-Moves l.task_queue l range
  do_queues-Moves (e ∷ es) l range = record {
    range = range;
    poller = refl;
    inside = refl;
    tokens = λ d. omega arith;
  }

  poll_or_take-Moves :
      (l : Loop) → InRange l → l.pollable ≡ true → Moves idle l (poll_or_take oi reply ready l)
  unfolding poll_or_take pending
  poll_or_take-Moves l (le, le') open_ = elim (Bool-cases (l.num == l.off)) [
    | inl none_left ↦ rw none_left (record {
      range = (le, le');
      poller = simp open_ refl;
      inside = refl;
      tokens = λ d. omega arith;
    })
    | inr some_left ↦ rw some_left (from_backlog-Moves idle l (le, le') (ground arith) refl)
  ]

  take_queued-Moves : (l : Loop) → InRange l → Moves idle l (take_queued oi reply ready l)
  unfolding take_queued
  take_queued-Moves l range = elim (Bool-cases l.pollable) [
    | inr closed ↦ simp closed (do_queues-Moves l.out.queue l range)
    | inl open_ ↦ simp open_ (elim (Bool-cases (ltb 16 (length l.task_queue))) [
      | inl many ↦ rw many (do_task-Moves l.task_queue l range)
      | inr few ↦ rw few (poll_or_take-Moves l range open_)
    ])
  ]

  take_more-Moves :
      (q : List Event) (l : Loop)
      → l.more_queue ≡ q
      → InRange l
      → Moves idle l (take_more oi reply ready q l)
  unfolding take_more pending
  take_more-Moves [] l same range = take_queued-Moves l range
  take_more-Moves (e ∷ es) l same range =
      let t : Processed e (record l { more_queue = es })
          (process oi reply ready e (record l { more_queue = es })) =
        process-Processed e (record l { more_queue = es }) range in
      record {
        range = t.range;
        poller = omega (arith, t.poller);
        inside = t.inside;
        tokens = λ d. omega (arith, t.tokens d, ap (occurs d) same);
      }

  -- A round of `thread_main`.
  pub take_work-Moves : (l : Loop) → InRange l → Moves idle l (take_work oi reply ready l)
  unfolding take_work pending
  take_work-Moves l range = elim (Bool-cases l.end_flag) [
    | inl over ↦
        simp over
          (record { range = range; poller = refl; inside = refl; tokens = λ d. omega arith })
    | inr on ↦ simp on (take_more-Moves l.more_queue l refl range)
  ]

  once_queued-Moves : (l : Loop) → InRange l → Moves idle l (once_queued oi reply ready l)
  unfolding once_queued
  once_queued-Moves l range = elim (Bool-cases l.pollable) [
    | inr closed ↦ simp closed (do_queues-Moves l.out.queue l range)
    | inl open_ ↦ simp open_ (elim (Bool-cases (is_empty l.task_queue)) [
      | inr tasks ↦ rw tasks (do_task-Moves l.task_queue l range)
      | inl no_tasks ↦ rw no_tasks (elim (Bool-cases (is_empty l.out.queue)) [
        | inr writes ↦ rw writes (do_queues-Moves l.out.queue l range)
        | inl no_writes ↦ rw no_writes (poll_or_take-Moves l range open_)
      ])
    ])
  ]

  once_more-Moves :
      (q : List Event) (l : Loop)
      → l.more_queue ≡ q
      → InRange l
      → Moves idle l (once_more oi reply ready q l)
  unfolding once_more take_more
  once_more-Moves [] l same range = once_queued-Moves l range
  once_more-Moves (e ∷ es) l same range = take_more-Moves (e ∷ es) l same range

  -- A blocking `run_once`.
  pub run_once-Moves : (l : Loop) → InRange l → Moves idle l (run_once oi reply ready l)
  unfolding run_once pending
  run_once-Moves l range = elim (Bool-cases l.end_flag) [
    | inl over ↦
        simp over
          (record { range = range; poller = refl; inside = refl; tokens = λ d. omega arith })
    | inr on ↦ simp on (once_more-Moves l.more_queue l refl range)
  ]

  -- The events that a poll delivers, where only armed ones are.
  pub after_poll-Moves :
      (es : List Event) (l : Loop)
      → 0 < length es
      → ((d : ℕ) → occurs d es ≤ l.armed d)
      → free l ≡ 0
      → Moves polling l (after_poll oi reply ready es (disarm es l))
  unfolding after_poll pending
  after_poll-Moves es l some_es armed closed = record {
    range = t.range;
    poller = omega (arith, t.poller, closed);
    inside = t.inside;
    tokens = λ d. omega (arith, t.tokens d, armed d, ap (occurs d) whole);
  }
    where
      filled : Loop
      filled = record (disarm es l) {
        off = 0;
        num = length es;
        pollable = true;
        backlog = es ++ drop (length es) l.backlog;
      }

      t : Moves idle filled (from_backlog oi reply ready filled)
      t =
          from_backlog-Moves idle filled
            (omega arith, omega (arith, length-append es (drop (length es) l.backlog))) some_es refl

      whole : unread filled ≡ es
      whole =
          take-append es (drop (length es) l.backlog) 0 (length es - 0) (omega arith)
          ∙ append-nil es
