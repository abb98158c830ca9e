-- ===== src/Loop/Kept/Takes.antt =====
-- How a thread takes its work in mpsrc/wavy_loop.cc loses no event: a round of `thread_main` or `run_once`,
-- and the events of a poll.
use mpio.Prelude.{
  ℕ, ◌+◌, ◌≤◌, ◌<◌, ◌≡◌, ◌≢◌, refl, sym, ap, ◌∙◌, List, [], ◌∷◌, true, is_empty, length, ltb, ◌==◌,
  ==→eq, if◌then◌else◌, Bool-cases, inl, inr, arith,
}
use mpio.Os.{Reply}
use mpio.Out.{Event, ident, Polled, polled, throws, poll_event}
use mpio.Loop.{
  Phase, Loop, do_task, do_queues, polled_out, process, found, from_backlog, poll_or_take,
  take_queued, once_queued, occurs, pending, held,
}
use mpio.Loop.Moves.{InRange}
use mpio.Loop.Work.{Unread, unread_lem}
use mpio.Loop.Kept.{Gone, IsRead, Keeps}

-- From a loop `l`, and `extra d` events of d that were taken out of it: what is registered stays, and no
-- event of a descriptor other than out's is lost.
pub record Passes (oi : ℕ) (extra : ℕ → ℕ) (l : Loop) (r : Phase × Loop) : Type 0 where
  pub registered : r.1.registered ≡ l.registered
  pub handlers : r.1.handlers ≡ l.handlers
  pub tokens : (d : ℕ) → d ≢ oi → pending d l + extra d ≤ pending d r.1 + held d r.0
  pub read : IsRead r.1
  pub gone : Gone r.0 r.1

pub Keeps-Passes :
    (oi : ℕ) (p : Phase) (l : Loop) (r : Phase × Loop)
    → ((d : ℕ) → held d p ≡ 0)
    → Passes oi (λ d. 0) l r
    → Keeps oi p l r
Keeps-Passes oi p l r none_held t = record {
  known = λ d h. ap (λ f. f d) (sym t.registered) ∙ h;
  handled = λ d f h. ap (λ g. g d) t.registered ∙ f (ap (λ g. g d) (sym t.handlers) ∙ h);
  kept = λ d ne h some. omega (arith, some, none_held d, t.tokens d ne);
  read = t.read;
  gone = t.gone;
}

module _ (oi : ℕ) (reply : Reply) (ready : List Event) where
  pub process-Passes :
      (e : Event) (l : Loop)
      → IsRead l
      → Passes oi (λ d. if ident e == d then 1 else 0) l (process oi reply ready e l)
  unfolding process pending
  process-Passes e l read = elim (Bool-cases (ident e == oi)) [
    | inl own ↦ rw own (out_lem own (poll_event l.out reply ready))
    | inr other ↦ rw other (record {
      registered = refl;
      handlers = refl;
      tokens = λ d ne. omega arith;
      read = read;
      gone = tt;
    })
  ]
    where
      out_lem :
          (ident e == oi) ≡ true
          → (o : Polled)
          → Passes oi (λ d. if ident e == d then 1 else 0) l (polled_out oi reply ready e l o)
      out_lem own (polled o) = record {
        registered = refl;
        handlers = refl;
        tokens = λ d ne. omega arith;
        read = read;
        gone = tt;
      }
      out_lem own (throws err) = record {
        registered = refl;
        handlers = refl;
        tokens = λ d ne. ground (arith, own, ne);
        read = read;
        gone = tt;
      }

  pub from_backlog-Passes :
      (l : Loop)
      → InRange l
      → l.off < l.num
      → l.pollable ≡ true
      → Passes oi (λ d. 0) l (from_backlog oi reply ready l)
  unfolding found pending
  from_backlog-Passes l (le, le') lt open_ = rw u.element (record {
    registered = t.registered;
    handlers = t.handlers;
    tokens = λ d ne. omega (arith, t.tokens d ne, ap (occurs d) u.first);
    read = t.read;
    gone = t.gone;
  })
    where
      u : Unread l.backlog l.off l.num
      u = unread_lem l.backlog l.off l.num lt le'

      t :
          Passes oi
            (λ d. if ident u.event == d then 1 else 0)
            (record l { off = l.off + 1 })
            (process oi reply ready u.event (record l { off = l.off + 1 }))
      t = process-Passes u.event (record l { off = l.off + 1 }) (λ h. ground (arith, open_, h))

  do_task-Passes : (ts : List ℕ) (l : Loop) → IsRead l → Passes oi (λ d. 0) l (do_task ts l)
  unfolding do_task pending
  do_task-Passes [] l read = record {
    registered = refl;
    handlers = refl;
    tokens = λ d ne. omega arith;
    read = read;
    gone = tt;
  }
  do_task-Passes (t ∷ ts) l read = record {
    registered = refl;
    handlers = refl;
    tokens = λ d ne. omega arith;
    read = read;
    gone = tt;
  }

  do_queues-Passes : (es : List Event) (l : Loop) → IsRead l → Passes oi (λ d. 0) l (do_queues es l)
  unfolding do_queues pending
  do_queues-Passes [] l read = do_task-Passes l.task_queue l read
  do_queues-Passes (e ∷ es) l read = record {
    registered = refl;
    handlers = refl;
    tokens = λ d ne. omega arith;
    read = read;
    gone = tt;
  }

  poll_or_take-Passes :
      (l : Loop)
      → InRange l
      → IsRead l
      → l.pollable ≡ true
      → Passes oi (λ d. 0) l (poll_or_take oi reply ready l)
  unfolding poll_or_take pending
  poll_or_take-Passes l (le, le') read open_ = elim (Bool-cases (l.num == l.off)) [
    | inl none_left ↦ rw none_left (record {
      registered = refl;
      handlers = refl;
      tokens = λ d ne. omega arith;
      read = λ h. ==→eq l.num l.off none_left;
      gone = tt;
    })
    | inr some_left ↦
        rw some_left (from_backlog-Passes l (le, le') (ground (arith, some_left, le)) open_)
  ]

  pub take_queued-Passes :
      (l : Loop) → InRange l → IsRead l → Passes oi (λ d. 0) l (take_queued oi reply ready l)
  unfolding take_queued
  take_queued-Passes l range read = elim (Bool-cases l.pollable) [
    | inr closed ↦ simp closed (do_queues-Passes l.out.queue l read)
    | inl open_ ↦ simp open_ (elim (Bool-cases (ltb 16 (length l.task_queue))) [
      | inl many ↦ rw many (do_task-Passes l.task_queue l read)
      | inr few ↦ rw few (poll_or_take-Passes l range read open_)
    ])
  ]

  pub once_queued-Passes :
      (l : Loop) → InRange l → IsRead l → Passes oi (λ d. 0) l (once_queued oi reply ready l)
  unfolding once_queued
  once_queued-Passes l range read = elim (Bool-cases l.pollable) [
    | inr closed ↦ simp closed (do_queues-Passes l.out.queue l read)
    | inl open_ ↦ simp open_ (elim (Bool-cases (is_empty l.task_queue)) [
      | inr tasks ↦ rw tasks (do_task-Passes l.task_queue l read)
      | inl no_tasks ↦ rw no_tasks (elim (Bool-cases (is_empty l.out.queue)) [
        | inr writes ↦ rw writes (do_queues-Passes l.out.queue l read)
        | inl no_writes ↦ rw no_writes (poll_or_take-Passes l range read open_)
      ])
    ])
  ]
