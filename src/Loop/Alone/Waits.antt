-- ===== src/Loop/Alone/Waits.antt =====
-- What `run_once` and `run_nonblock` of mpsrc/wavy_loop.cc wait for in a program without worker threads.
use mpio.Prelude.{
  ℕ, zero, suc, ◌+◌, ◌≡◌, ◌≢◌, refl, List, [], ◌∷◌, length, get_elem?, Option, none, some, Bool,
  true, false, is_empty, Bool-cases, inl, inr, ◌==◌, ◌&&◌, take, drop, ◌++◌,
}
use mpio.Memory.{Outcome, returned, bad_alloc, out_of_fuel, fault}
use mpio.Os.{Reply, is_transient}
use mpio.Out.{Event, ident, Step, Polled, polled, throws, poll_event, write_event, is_idle}
use mpio.Loop.{
  submit, Loop, Phase, idle, waiting, polling, stopped, poll_failed, crashed, handling, arming,
  writing, running, more, next, remove_event, finish, do_task, do_queues, polled_out, process,
  found, poll_or_take, once_queued, once_more, run_once, after_poll, disarm, poll_returns, end,
  add_handler, remove_handler,
}
use mpio.Loop.Alone.{
  Request, asks_more, asks_next, asks_remove, ends, submits, adds, removes, Env, State, Ended,
  returns, request, requests, finished, event_rest, written, queue_rest, nothing, once_rest, once,
  flush,
}
use mpio.Loop.Alone

-- The round does not wait, and polls or leaves `m_pollable` set.
abbrev Taken : Phase × Loop → Type 0
Taken (waiting, l) = ⊥
Taken (polling, l) = Unit
Taken (_, l) = l.pollable ≡ true

module _ (oi : ℕ) (reply : Reply) (ready : List Event) where
  process-pollable :
      (e : Event) (l : Loop)
      → l.pollable ≡ true
      → ((process oi reply ready e l).1.pollable ≡ true) × Taken (process oi reply ready e l)
  unfolding process
  process-pollable e l open_ = elim (Bool-cases (ident e == oi)) [
    | inl own ↦ rw own (out_lem (poll_event l.out reply ready))
    | inr other ↦ rw other (open_, open_)
  ]
    where
      out_lem :
          (o : Polled)
          → ((polled_out oi reply ready e l o).1.pollable ≡ true)
            × Taken (polled_out oi reply ready e l o)
      out_lem (polled o) = (open_, open_)
      out_lem (throws err) = (open_, open_)

  found-pollable :
      (x : Option Event) (l : Loop)
      → l.pollable ≡ true
      → ((found oi reply ready x l).1.pollable ≡ true) × Taken (found oi reply ready x l)
  unfolding found
  found-pollable none l open_ = (open_, open_)
  found-pollable (some e) l open_ = process-pollable e (record l { off = l.off + 1 }) open_

  poll_or_take-Taken : (l : Loop) → l.pollable ≡ true → Taken (poll_or_take oi reply ready l)
  unfolding poll_or_take
  poll_or_take-Taken l open_ = elim (Bool-cases (l.num == l.off)) [
    | inl none_left ↦ rw none_left tt
    | inr some_left ↦ rw some_left (found-pollable (get_elem? l.backlog l.off) l open_).1
  ]

  once_queued-Taken :
      (ts : List ℕ) (es : List Event) (l : Loop)
      → l.task_queue ≡ ts
      → l.out.queue ≡ es
      → l.pollable ≡ true
      → Taken (once_queued oi reply ready l)
  unfolding once_queued do_task do_queues
  once_queued-Taken (t ∷ ts) es l tasks queue open_ = rw (open_, tasks) refl
  once_queued-Taken [] (e ∷ es) l tasks queue open_ = rw (open_, tasks, queue) refl
  once_queued-Taken [] [] l tasks queue open_ =
      simp (open_, tasks, queue) (poll_or_take-Taken l open_)

  once_more-Taken :
      (q : List Event) (l : Loop) → l.pollable ≡ true → Taken (once_more oi reply ready q l)
  unfolding once_more
  once_more-Taken [] l open_ = once_queued-Taken l.task_queue l.out.queue l refl refl open_
  once_more-Taken (e ∷ es) l open_ = (process-pollable e (record l { more_queue = es }) open_).1

  run_once-Taken : (l : Loop) → l.pollable ≡ true → Taken (run_once oi reply ready l)
  unfolding run_once
  run_once-Taken l open_ = elim (Bool-cases l.end_flag) [
    | inl over ↦ simp over open_
    | inr on ↦ simp on (once_more-Taken l.more_queue l open_)
  ]

after_poll-pollable :
    (oi : ℕ) (reply : Reply) (ready es : List Event) (l : Loop)
    → (after_poll oi reply ready es l).1.pollable ≡ true
unfolding after_poll
after_poll-pollable oi reply ready es l =
    let full : Loop = record l {
      off = 0;
      num = length es;
      pollable = true;
      backlog = es ++ drop (length es) l.backlog;
    } in
    (found-pollable oi reply ready (get_elem? full.backlog 0) full refl).0

do_queues-pollable :
    (ts : List ℕ) (es : List Event) (l : Loop)
    → l.task_queue ≡ ts
    → l.pollable ≡ true
    → (do_queues es l).1.pollable ≡ true
unfolding do_queues do_task
do_queues-pollable ts (e ∷ es) l tasks h = h
do_queues-pollable [] [] l tasks h = simp tasks h
do_queues-pollable (t ∷ ts) [] l tasks h = simp tasks h

-- What an answered event leaves.
request-pollable :
    (q : Request) (r : Phase × Loop) → r.1.pollable ≡ true → (request q r).1.pollable ≡ true
unfolding more next remove_event end submit add_handler remove_handler
request-pollable asks_more (handling e true rm, l) h = h
request-pollable asks_more (handling e false rm, l) h = h
request-pollable asks_next (handling e true rm, l) h = h
request-pollable asks_next (handling e false rm, l) h = h
request-pollable asks_remove (handling e re true, l) h = h
request-pollable asks_remove (handling e re false, l) h = h
request-pollable (submits t) (p, l) h = h
request-pollable (adds d) (p, l) h = h
request-pollable (removes d) (p, l) h = h
request-pollable ends (p, l) h = h
request-pollable asks_more (_, l) h = h
request-pollable asks_next (_, l) h = h
request-pollable asks_remove (_, l) h = h

requests-pollable :
    (qs : List Request) (r : Phase × Loop) → r.1.pollable ≡ true → (requests qs r).1.pollable ≡ true
unfolding requests
requests-pollable [] r h = h
requests-pollable (q ∷ qs) r h = requests-pollable qs (request q r) (request-pollable q r h)

finished-pollable :
    (cont : Bool) (r : Phase × Loop) → r.1.pollable ≡ true → (finished cont r).pollable ≡ true
unfolding finish
finished-pollable cont (handling e true rm, l) h = h
finished-pollable cont (handling e false true, l) h = h
finished-pollable true (handling e false false, l) h = h
finished-pollable false (handling e false false, l) h = h
finished-pollable cont (_, l) h = h

module _ {W : Type 0} (oi : ℕ) (env : Env W) where
  -- The round ends without waiting for a condition, and where it returns, `m_pollable` is set.
  abbrev pub Awake : Ended (State W) → Type 0
  Awake (returns t) = t.loop.pollable ≡ true
  Awake Ended.sleeps = ⊥
  Awake _ = Unit

  event_rest-Awake :
      (s : State W) (w : W) (p : Phase) (l : Loop)
      → l.pollable ≡ true
      → Awake (event_rest oi env s w (p, l))
  unfolding event_rest
  event_rest-Awake s w (handling e re rm) l h = elim (Bool-cases (l.handlers (ident e))) [
    | inl there ↦ rw there (
        finished-pollable (env.handle e w).0.1 (requests (env.handle e w).0.0 (handling e re rm, l))
          (requests-pollable (env.handle e w).0.0 (handling e re rm, l) h))
    | inr none_there ↦ rw none_there (finished-pollable false (handling e re rm, l) h)
  ]
  event_rest-Awake s w (arming e) l h = h
  event_rest-Awake s w idle l h = h
  event_rest-Awake s w stopped l h = h
  event_rest-Awake s w crashed l h = tt
  event_rest-Awake s w poll_failed l h = tt
  event_rest-Awake s w _ l h = tt

  written-Awake :
      (s : State W) (e : Event) (l : Loop) (o : Outcome (Step W))
      → l.pollable ≡ true
      → Awake (written oi env s e l o)
  written-Awake s e l (returned t) h = h
  written-Awake s e l bad_alloc h = tt
  written-Awake s e l out_of_fuel h = tt
  written-Awake s e l fault h = tt

  -- Where a call that blocks is not about to wait.
  queue_rest-Awake :
      (block : Bool) (s : State W) (w : W) (p : Phase) (l : Loop)
      → (block ≡ true → p ≢ waiting)
      → l.pollable ≡ true
      → Awake (queue_rest oi env block s w (p, l))
  unfolding queue_rest
  queue_rest-Awake true s w waiting l no_wait h = absurd (no_wait refl refl)
  queue_rest-Awake false s w waiting l no_wait h = h
  queue_rest-Awake block s w (writing e) l no_wait h =
      written-Awake s e l (write_event env.os l.out e w) h
  queue_rest-Awake block s w (running t last) l no_wait h =
      requests-pollable (env.task t w).0 (running t last, l) h
  queue_rest-Awake block s w p l no_wait h = event_rest-Awake s w p l h

  nothing-Awake :
      (block : Bool) (s : State W) (l : Loop) (w : W) → Awake (nothing oi env block s l w)
  unfolding nothing poll_returns
  nothing-Awake true s l w = refl
  nothing-Awake false s l w =
      let r : Phase × Loop = do_queues l.out.queue (poll_returns l).1 in
      queue_rest-Awake false s w r.0 r.1 (λ z. absurd (cc))
        (do_queues-pollable l.task_queue l.out.queue (poll_returns l).1 refl refl)

  polled-Awake :
      (block : Bool) (s : State W) (l : Loop) (r : (Reply × List Event) × W)
      → Awake (Alone.polled oi env block s l r)
  unfolding Alone.polled
  polled-Awake block s l ((Reply.failed e, es), w) = elim (Bool-cases (is_transient e)) [
    | inl again ↦ rw again (nothing-Awake block s l w)
    | inr bad ↦ rw bad tt
  ]
  polled-Awake block s l ((Reply.done zero, es), w) = nothing-Awake block s l w
  polled-Awake block s l ((Reply.done (suc num), es), w) =
      let taken : List Event = take (suc num) es in
      let r : Phase × Loop =
        after_poll oi (env.ready l w).0 (env.ready l w).1 taken (disarm taken l) in
      event_rest-Awake s w r.0 r.1
        (after_poll-pollable oi (env.ready l w).0 (env.ready l w).1 taken (disarm taken l))

  once_rest-Awake :
      (block : Bool) (s : State W) (p : Phase) (l : Loop)
      → Taken (p, l)
      → Awake (once_rest oi env block s (p, l))
  unfolding once_rest
  once_rest-Awake block s polling l t = polled-Awake block s l (env.wait block l s.world)
  once_rest-Awake block s waiting l t = absurd t
  once_rest-Awake block s p l t = queue_rest-Awake block s s.world p l (λ b z. absurd (cc)) t

  -- Without workers, where `m_pollable` is set, `run_once` and `run_nonblock` never wait for a
  -- condition, and where they return it is set again. The system may reply anything, and handlers
  -- and tasks may ask to go on, pass an event on, remove it, submit tasks, add and remove
  -- handlers and end the loop; that one writes, or runs a round of the loop itself, is left out.
  pub once-Awake :
      (block : Bool) (s : State W) → s.loop.pollable ≡ true → Awake (once oi env block s)
  unfolding once
  once-Awake block s h =
      let reply : Reply = (env.ready s.loop s.world).0 in
      let ready : List Event = (env.ready s.loop s.world).1 in
      let r : Phase × Loop = run_once oi reply ready s.loop in
      once_rest-Awake block s r.0 r.1 (run_once-Taken oi reply ready s.loop h)

  run_once-ended : (s : State W) → s.loop.end_flag ≡ true → once oi env true s ≡ returns s
  unfolding once once_rest queue_rest event_rest run_once
  run_once-ended s ended = rw ended refl

  -- After the end flag is set, with no worker, `flush` never returns while a task is queued or a
  -- descriptor is watched: `run_once` does nothing.
  pub flush_spins :
      (fuel : ℕ) (s : State W)
      → s.loop.end_flag ≡ true
      → (is_idle s.loop.out && is_empty s.loop.task_queue) ≡ false
      → flush oi env fuel s ≡ Ended.out_of_fuel
  unfolding flush
  flush_spins zero s ended queued = refl
  flush_spins (suc fuel) s ended queued =
      rw (queued, run_once-ended s ended) (flush_spins fuel s ended queued)
