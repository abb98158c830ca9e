-- ===== src/Loop/Alone.antt =====
-- mpsrc/wavy_loop.cc in a program without worker threads: a whole `run_once`, blocking or not, with the
-- handlers, the tasks and the calls of the system that it makes, and `flush`. A step of Loop ends where
-- the mutex is given back; here one thread goes on to where `run_once` returns.
pub mod Rounds
pub mod Writes
pub mod Polls
pub mod Waits
pub mod Flushed
use mpio.Prelude.{
  ℕ, zero, suc, ◌≡◌, List, [], ◌∷◌, ◌++◌, Bool, true, false, ◌&&◌, is_empty, take, if◌then◌else◌,
}
use mpio.Memory.{Outcome, returned}
use mpio.Os.{Reply, is_transient, Os}
use mpio.Xfer.Items.{Item}
use mpio.Out.{Event, ident, Step, is_idle, write_event}
use mpio.Out.History.{behind}
use mpio.Loop.{
  Loop, Phase, stopped, waiting, polling, poll_failed, crashed, overrun, idle, handling, arming,
  writing, running, submit, add_handler, remove_handler, end, more, next, remove_event, finish,
  do_queues, run_once, after_poll, disarm, poll_returns, reactivate,
}

-- What a handler or a task asks of the loop. A write from one, and a `run_once` or a `flush` from one, which
-- would run inside this one, are left out.
pub data Request : Type 0 where
  asks_more asks_next asks_remove ends : Request
  submits : (task : ℕ) → Request
  adds removes : (fd : ℕ) → Request

-- What the library does not implement: the calls of the system, and the program's handlers and tasks.
-- `wait` is the wait of the loop's kernel object, `ready` that of out's; a handler returns what it
-- asked for and `cont`, which is false where it threw.
pub record Env (W : Type 0) : Type 0 where
  pub os : Os W
  pub wait : Bool → Loop → W → (Reply × List Event) × W
  pub ready : Loop → W → Reply × List Event
  pub handle : Event → W → (List Request × Bool) × W
  pub task : ℕ → W → List Request × W

-- `done d` is what was sent to d and which of its finalizers were called; `ran` are the tasks that ran.
pub record State (W : Type 0) : Type 0 where
  pub loop : Loop
  pub world : W
  pub done : ℕ → List Item
  pub ran : List ℕ

-- `throws` is system_error; `sleeps` waits for a condition that no other thread signals.
pub data Ended (A : Type 0) : Type 0 where
  returns : A → Ended A
  throws sleeps faults out_of_fuel : Ended A

infixl 5 ◌>>=◌
abbrev pub ◌>>=◌ : {A B : Type 0} → Ended A → (A → Ended B) → Ended B
returns a >>= f = f a
throws >>= f = throws
sleeps >>= f = sleeps
faults >>= f = faults
out_of_fuel >>= f = out_of_fuel

-- `asks_more`, `asks_next` and `asks_remove` are methods of the event that a handler is given.
abbrev pub request : Request → Phase × Loop → Phase × Loop
request asks_more (handling e re rm, l) = more e re rm l
request asks_next (handling e re rm, l) = next e re rm l
request asks_remove (handling e re rm, l) = remove_event e re rm l
request (submits t) (p, l) = (p, submit t l)
request (adds d) (p, l) = (p, add_handler d l)
request (removes d) (p, l) = (p, remove_handler d l)
request ends (p, l) = (p, end l)
request _ r = r

unfoldable pub requests : List Request → Phase × Loop → Phase × Loop
requests [] r = r
requests (q ∷ qs) r = requests qs (request q r)

abbrev pub finished : Bool → Phase × Loop → Loop
finished cont (handling e re rm, l) = (finish e re rm cont l).1
finished cont (p, l) = l

module _ {W : Type 0} (oi : ℕ) (env : Env W) where
  abbrev pub goes_on : State W → Loop → W → Ended (State W)
  goes_on s l w = returns (record s { loop = l; world = w })

  -- `cont = (*h)(e)`, and what follows it
  abbrev pub answered :
      State W → Event → Bool → Bool → Loop → (List Request × Bool) × W → Ended (State W)
  answered s e re rm l ((qs, cont), w) =
      goes_on s (finished cont (requests qs (handling e re rm, l))) w

  -- The rest of a round that has taken an event.
  unfoldable pub event_rest : State W → W → Phase × Loop → Ended (State W)
  event_rest s w (handling e re rm, l) =
      if l.handlers (ident e)
      then answered s e re rm l (env.handle e w)
      else goes_on s (finished false (handling e re rm, l)) w
  event_rest s w (arming e, l) = goes_on s (reactivate e l) w
  event_rest s w (idle, l) = goes_on s l w
  event_rest s w (stopped, l) = goes_on s l w
  event_rest s w (crashed, l) = throws
  event_rest s w (poll_failed, l) = throws
  event_rest s w (_, l) = faults

  -- `m_out->write_event(ke)`
  abbrev pub written : State W → Event → Loop → Outcome (Step W) → Ended (State W)
  written s e l (returned t) = returns (record s {
    loop = record l { out = t.out };
    world = t.world;
    done = behind s.done (ident e) t.log;
  })
  written s e l _ = faults

  abbrev pub ran_task : State W → ℕ → Bool → Loop → List Request × W → Ended (State W)
  ran_task s t last l (qs, w) =
      returns (record s {
        loop = (requests qs (running t last, l)).1;
        world = w;
        ran = s.ran ++ (t ∷ []);
      })

  -- `do_queue:` and what follows; only a call that blocks waits.
  unfoldable pub queue_rest : Bool → State W → W → Phase × Loop → Ended (State W)
  queue_rest block s w (waiting, l) = if block then sleeps else goes_on s l w
  queue_rest block s w (writing e, l) = written s e l (write_event env.os l.out e w)
  queue_rest block s w (running t last, l) = ran_task s t last l (env.task t w)
  queue_rest block s w r = event_rest s w r

  -- A wait that gives nothing: a call that does not block looks at the queues again.
  unfoldable pub nothing : Bool → State W → Loop → W → Ended (State W)
  nothing block s l w =
      if block
      then goes_on s (poll_returns l).1 w
      else queue_rest block s w (do_queues l.out.queue (poll_returns l).1)

  abbrev pub filled : State W → Loop → W → List Event → Ended (State W)
  filled s l w es =
      event_rest s w (after_poll oi (env.ready l w).0 (env.ready l w).1 es (disarm es l))

  -- What `m_kernel.wait` returned, and the backlog
  unfoldable pub polled : Bool → State W → Loop → (Reply × List Event) × W → Ended (State W)
  polled block s l ((Reply.failed e, es), w) =
      if is_transient e then nothing block s l w else throws
  polled block s l ((Reply.done zero, es), w) = nothing block s l w
  polled block s l ((Reply.done (suc num), es), w) = filled s l w (take (suc num) es)

  unfoldable pub once_rest : Bool → State W → Phase × Loop → Ended (State W)
  once_rest block s (polling, l) = polled block s l (env.wait block l s.world)
  once_rest block s r = queue_rest block s s.world r

  -- `run_once`, and with `block` false `run_nonblock`
  unfoldable pub once : Bool → State W → Ended (State W)
  once block s =
      once_rest block s
        (run_once oi (env.ready s.loop s.world).0 (env.ready s.loop s.world).1 s.loop)

  unfoldable pub flush : ℕ → State W → Ended (State W)
  flush zero s = out_of_fuel
  flush (suc fuel) s =
      let again = once true s >>= λ t. flush fuel t in
      if is_idle s.loop.out && is_empty s.loop.task_queue then returns s else again
