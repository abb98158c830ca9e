-- ===== src/Loop/Waiting.antt =====
-- Which threads of mpsrc/wavy_loop.cc wait for the condition.
pub mod Up
pub mod OneWorker
use mpio.Prelude.{
  ℕ, ◌+◌, ◌≤◌, ◌<◌, ◌≡◌, ◌≢◌, ◌⊎◌, refl, sym, ap, ◌∙◌, List, [], ◌∷◌, Option, none, some, Bool,
  true, false, is_empty, get_elem?, length, ltb, not, Bool-cases, inl, inr, ◌==◌, ==→eq, arith,
  if◌then◌else◌, ltb→lt,
}
use mathlib.Core.Path.{subst}
use native.Mathlib.Decide.{dec_lt}
use mpio.Os.{Reply}
use mpio.Family.{update, count, count-update, count-some, update_self}
use mpio.Out.{Event, ident, Polled, polled, throws, poll_event}
use mpio.Loop.{
  Phase, idle, waiting, polling, stopped, poll_failed, crashed, overrun, handling, arming, running,
  writing, Loop, System, put, start, Step, takes, takes_once, wakes, polls, polls_nothing,
  polls_nothing_once, poll_fails, asks_more, asks_next, asks_remove, returns, arms, writes, runs,
  submits, adds, removes, ends, Reach, here, after, do_task, do_queues, polled_out, process, found,
  from_backlog, poll_or_take, take_queued, take_more, take_work, once_queued, once_more, run_once,
  after_poll, disarm, poll_again, poll_returns, more, next, remove_event, finish, end, submit,
  add_handler, remove_handler,
}
use mpio.Loop.Moves
use mpio.Loop.Moves.{free, InRange}
use mpio.Loop.Valid.{IsValid, Reach-IsValid}

-- A thread that neither waits for the condition nor has stopped at the end flag: it is at work, polls, or an
-- exception has ended it.
abbrev pub IsUp : Phase → Type 0
IsUp waiting = ⊥
IsUp stopped = ⊥
IsUp _ = Unit

-- A round waits only where `m_pollable` is not set, and stops only at the end flag.
abbrev pub Rests : Phase × Loop → Type 0
Rests (waiting, l) = l.pollable ≡ false
Rests (stopped, l) = l.end_flag ≡ true
Rests _ = Unit

module _ (oi : ℕ) (reply : Reply) (ready : List Event) where
  process-Rests : (e : Event) (l : Loop) → Rests (process oi reply ready e l)
  unfolding process
  process-Rests e l = elim (Bool-cases (ident e == oi)) [
    | inl own ↦ rw own (out_lem (poll_event l.out reply ready))
    | inr other ↦ rw other tt
  ]
    where
      out_lem : (o : Polled) → Rests (polled_out oi reply ready e l o)
      out_lem (polled o) = tt
      out_lem (throws err) = tt

  found-Rests : (x : Option Event) (l : Loop) → Rests (found oi reply ready x l)
  unfolding found
  found-Rests none l = tt
  found-Rests (some e) l = process-Rests e (record l { off = l.off + 1 })

  poll_or_take-Rests : (l : Loop) → Rests (poll_or_take oi reply ready l)
  unfolding poll_or_take
  poll_or_take-Rests l = elim (Bool-cases (l.num == l.off)) [
    | inl none_left ↦ rw none_left tt
    | inr some_left ↦ rw some_left (found-Rests (get_elem? l.backlog l.off) l)
  ]

  do_queues-Rests :
      (ts : List ℕ) (es : List Event) (l : Loop)
      → l.task_queue ≡ ts
      → l.pollable ≡ false
      → Rests (do_queues es l)
  unfolding do_queues do_task
  do_queues-Rests ts (e ∷ es) l tasks closed = tt
  do_queues-Rests [] [] l tasks closed = simp tasks closed
  do_queues-Rests (t ∷ ts) [] l tasks closed = simp tasks tt

  take_queued-Rests :
      (ts : List ℕ) (l : Loop) → l.task_queue ≡ ts → Rests (take_queued oi reply ready l)
  unfolding take_queued do_task
  take_queued-Rests ts l tasks = elim (Bool-cases l.pollable) [
    | inr closed ↦ simp closed (do_queues-Rests l.task_queue l.out.queue l refl closed)
    | inl open_ ↦ simp open_ (elim (Bool-cases (ltb 16 (length l.task_queue))) [
      | inl many ↦ rw many (some_task l.task_queue (ltb→lt 16 (length l.task_queue) many))
      | inr few ↦ rw few (poll_or_take-Rests l)
    ])
  ]
    where
      some_task : (us : List ℕ) → 16 < length us → Rests (do_task us l)
      some_task [] h = absurd (omega (arith, h))
      some_task (u ∷ us) h = tt

  once_queued-Rests :
      (ts : List ℕ) (es : List Event) (l : Loop)
      → l.task_queue ≡ ts
      → l.out.queue ≡ es
      → Rests (once_queued oi reply ready l)
  unfolding once_queued do_task do_queues
  once_queued-Rests ts es l tasks queue = elim (Bool-cases l.pollable) [
    | inr closed ↦ simp closed (do_queues-Rests l.task_queue l.out.queue l refl closed)
    | inl open_ ↦ simp open_ (taken ts es tasks queue)
  ]
    where
      taken :
          (us : List ℕ) (fs : List Event)
          → l.task_queue ≡ us
          → l.out.queue ≡ fs
          → Rests (
              if not (is_empty l.task_queue)
              then do_task l.task_queue l
              else if not (is_empty l.out.queue)
              then do_queues l.out.queue l
              else poll_or_take oi reply ready l)
      taken (u ∷ us) fs t q = simp t tt
      taken [] (f ∷ fs) t q = simp (t, q) tt
      taken [] [] t q = simp (t, q) (poll_or_take-Rests l)

  take_more-Rests : (q : List Event) (l : Loop) → Rests (take_more oi reply ready q l)
  unfolding take_more
  take_more-Rests [] l = take_queued-Rests l.task_queue l refl
  take_more-Rests (e ∷ es) l = process-Rests e (record l { more_queue = es })

  once_more-Rests : (q : List Event) (l : Loop) → Rests (once_more oi reply ready q l)
  unfolding once_more
  once_more-Rests [] l = once_queued-Rests l.task_queue l.out.queue l refl refl
  once_more-Rests (e ∷ es) l = process-Rests e (record l { more_queue = es })

  pub take_work-Rests : (l : Loop) → Rests (take_work oi reply ready l)
  unfolding take_work
  take_work-Rests l = elim (Bool-cases l.end_flag) [
    | inl over ↦ simp over refl
    | inr on ↦ simp on (take_more-Rests l.more_queue l)
  ]

  pub run_once-Rests : (l : Loop) → Rests (run_once oi reply ready l)
  unfolding run_once
  run_once-Rests l = elim (Bool-cases l.end_flag) [
    | inl over ↦ simp over refl
    | inr on ↦ simp on (once_more-Rests l.more_queue l)
  ]

  pub after_poll-Rests : (es : List Event) (l : Loop) → Rests (after_poll oi reply ready es l)
  unfolding after_poll
  after_poll-Rests es l = found-Rests _ _

pub poll_again-Rests : (l : Loop) → Rests (poll_again l)
unfolding poll_again
poll_again-Rests l = elim (Bool-cases l.end_flag) [
  | inl over ↦ simp over refl
  | inr on ↦ simp on tt
]

pub poll_returns-Rests : (l : Loop) → Rests (poll_returns l)
unfolding poll_returns
poll_returns-Rests l = tt

-- What a handler asks for does not end its round.
pub more-Rests : (e : Event) (re rm : Bool) (l : Loop) → Rests (more e re rm l)
unfolding more
more-Rests e true rm l = tt
more-Rests e false rm l = tt

pub next-Rests : (e : Event) (re rm : Bool) (l : Loop) → Rests (next e re rm l)
unfolding next
next-Rests e true rm l = tt
next-Rests e false rm l = tt

pub remove_event-Rests : (e : Event) (re rm : Bool) (l : Loop) → Rests (remove_event e re rm l)
unfolding remove_event
remove_event-Rests e re true l = tt
remove_event-Rests e re false l = tt

pub finish-Rests : (e : Event) (re rm cont : Bool) (l : Loop) → Rests (finish e re rm cont l)
unfolding finish
finish-Rests e true rm cont l = tt
finish-Rests e false true cont l = tt
finish-Rests e false false true l = tt
finish-Rests e false false false l = tt
