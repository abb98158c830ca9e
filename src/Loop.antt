-- ===== src/Loop.antt =====
-- The class loop_impl of mpsrc/wavy_loop.h and mpsrc/wavy_loop.cc: worker threads that poll, run
-- handlers, write and run tasks, one mutex, and the kernel object.
-- A step is what a thread does from one lock of the mutex, or one call without it, to the next.
-- `registered d` says whether the kernel object knows descriptor d, and `armed d` is 1 while it will deliver
-- an event of d; with EPOLLONESHOT it delivers one and then none until the event is reactivated.
pub mod Moves
pub mod Work
pub mod Valid
pub mod Workers
pub mod Threads
pub mod Failures
pub mod Waiting
pub mod Interest
pub mod Tasks
pub mod Kept
pub mod Alone
use mpio.Prelude.{
  ℕ, zero, suc, ◌+◌, ◌-◌, ◌≤◌, ◌<◌, ◌≡◌, List, [], ◌∷◌, ◌++◌, Option, none, some, Bool, true, false,
  not, is_empty, length, get_elem?, take, drop, ltb, ◌==◌, if◌then◌else◌,
}
use mpio.Os.{Reply}
use mpio.Family.{update, count}
use mpio.Out.{Event, ident, Out, init, Polled, polled, throws, poll_event}

abbrev pub task_queue_limit : ℕ
task_queue_limit = 16

-- What a thread is about to do. `handling` has the two bits of `m_flags`; `overrun` is a read outside
-- the backlog; `poll_failed` and `crashed` are threads that an exception has ended.
pub data Phase : Type 0 where
  idle waiting polling stopped poll_failed crashed overrun : Phase
  handling : Event → (reactivated removed : Bool) → Phase
  arming writing : Event → Phase
  running : (task : ℕ) → (last : Bool) → Phase

-- `handlers d` says whether `m_state[d]` is set.
pub record Loop : Type 0 where
  pub off : ℕ
  pub num : ℕ
  pub pollable : Bool
  pub backlog : List Event
  pub more_queue : List Event
  pub task_queue : List ℕ
  pub end_flag : Bool
  pub handlers : ℕ → Bool
  pub out : Out
  pub registered : ℕ → Bool
  pub armed : ℕ → ℕ

abbrev pub reset_handler : ℕ → Loop → Loop
reset_handler d l = record l { handlers = update l.handlers d false }

-- `m_kernel.reactivate` and `m_kernel.remove`; the error for a descriptor that is not registered is
-- ignored.
abbrev pub reactivate : Event → Loop → Loop
reactivate e l = record l {
  armed = if l.registered (ident e) then update l.armed (ident e) 1 else l.armed;
}

abbrev pub remove : Event → Loop → Loop
remove e l = record l {
  armed = update l.armed (ident e) 0;
  registered = update l.registered (ident e) false;
}

-- `add_handler_impl` where fcntl succeeds. The error for a descriptor that is registered is ignored.
unfoldable pub add_handler : ℕ → Loop → Loop
add_handler d l = record l {
  handlers = update l.handlers d true;
  registered = update l.registered d true;
  armed = if l.registered d then l.armed else update l.armed d 1;
}

unfoldable pub remove_handler : ℕ → Loop → Loop
remove_handler d l = record l {
  handlers = update l.handlers d false;
  registered = update l.registered d false;
  armed = update l.armed d 0;
}

unfoldable pub submit : ℕ → Loop → Loop
submit t l = record l { task_queue = l.task_queue ++ (t ∷ []) }

unfoldable pub end : Loop → Loop
end l = record l { end_flag = true }

-- `event::more`, `event::next` and `event::remove`
unfoldable pub more : Event → Bool → Bool → Loop → Phase × Loop
more e true removed l = (handling e true removed, l)
more e false removed l =
    (handling e true removed, record l { more_queue = l.more_queue ++ (e ∷ []) })

unfoldable pub next : Event → Bool → Bool → Loop → Phase × Loop
next e true removed l = (handling e true removed, l)
next e false removed l = (handling e true removed, reactivate e l)

unfoldable pub remove_event : Event → Bool → Bool → Loop → Phase × Loop
remove_event e reactivated true l = (handling e reactivated true, l)
remove_event e reactivated false l =
    (handling e reactivated true, reset_handler (ident e) (remove e l))

-- After the handler: `cont` is what it returned, and false if there is none or it threw.
unfoldable pub finish : Event → Bool → Bool → Bool → Loop → Phase × Loop
finish e true removed cont l = (idle, l)
finish e false true cont l = (idle, l)
finish e false false false l = (idle, reset_handler (ident e) (remove e l))
finish e false false true l = (idle, reactivate e l)

-- `do_task` up to the unlock
unfoldable pub do_task : List ℕ → Loop → Phase × Loop
do_task [] l = (waiting, l)
do_task (t ∷ ts) l = (running t (is_empty ts), record l { task_queue = ts })

-- `do_out` up to the unlock, where there is something to write
unfoldable pub do_queues : List Event → Loop → Phase × Loop
do_queues [] l = do_task l.task_queue l
do_queues (e ∷ es) l = (writing e, record l { out = record l.out { queue = es } })

-- `oi` is `m_out->ident()`; `reply` and `ready` are what the wait of out's kernel object gives if it
-- is called.
module _ (oi : ℕ) (reply : Reply) (ready : List Event) where
  abbrev pub polled_out : Event → Loop → Polled → Phase × Loop
  polled_out e l (polled o) = (arming e, record l { out = o })
  polled_out e l (throws err) = (crashed, l)

  -- `process_handler:` up to the unlock
  unfoldable pub process : Event → Loop → Phase × Loop
  process e l =
      if ident e == oi
      then polled_out e l (poll_event l.out reply ready)
      else (handling e false false, l)

  -- `ke = m_backlog[m_off++]`
  unfoldable pub found : Option Event → Loop → Phase × Loop
  found none l = (overrun, l)
  found (some e) l = process e (record l { off = l.off + 1 })

  abbrev pub from_backlog : Loop → Phase × Loop
  from_backlog l = found (get_elem? l.backlog l.off) l

  unfoldable pub poll_or_take : Loop → Phase × Loop
  poll_or_take l =
      if l.num == l.off then (polling, record l { pollable = false }) else from_backlog l

  unfoldable pub take_queued : Loop → Phase × Loop
  take_queued l =
      if not l.pollable
      then do_queues l.out.queue l
      else if ltb task_queue_limit (length l.task_queue)
      then do_task l.task_queue l
      else poll_or_take l

  unfoldable pub take_more : List Event → Loop → Phase × Loop
  take_more [] l = take_queued l
  take_more (e ∷ es) l = process e (record l { more_queue = es })

  -- A round of `thread_main` up to the first unlock or wait
  unfoldable pub take_work : Loop → Phase × Loop
  take_work l = if l.end_flag then (stopped, l) else take_more l.more_queue l

  -- A blocking `run_once` up to the first unlock or wait: it runs what is queued before it polls.
  unfoldable pub once_queued : Loop → Phase × Loop
  once_queued l =
      if not l.pollable
      then do_queues l.out.queue l
      else if not (is_empty l.task_queue)
      then do_task l.task_queue l
      else if not (is_empty l.out.queue)
      then do_queues l.out.queue l
      else poll_or_take l

  unfoldable pub once_more : List Event → Loop → Phase × Loop
  once_more [] l = once_queued l
  once_more (e ∷ es) l = process e (record l { more_queue = es })

  unfoldable pub run_once : Loop → Phase × Loop
  run_once l = if l.end_flag then (stopped, l) else once_more l.more_queue l

  -- `m_kernel.wait` has put `es` into the backlog, and the mutex is locked again.
  unfoldable pub after_poll : List Event → Loop → Phase × Loop
  after_poll es l = from_backlog (record l {
    off = 0;
    num = length es;
    pollable = true;
    backlog = es ++ drop (length es) l.backlog;
  })

-- The wait has given nothing: a signal or the timeout.
unfoldable pub poll_again : Loop → Phase × Loop
poll_again l = if l.end_flag then (stopped, record l { pollable = true }) else (polling, l)

-- The same in `run_once`, which returns.
unfoldable pub poll_returns : Loop → Phase × Loop
poll_returns l = (idle, record l { pollable = true })

-- How many of the events are of descriptor d.
abbrev pub occurs : ℕ → List Event → ℕ
occurs d [] = 0
occurs d (e ∷ es) = (if ident e == d then 1 else 0) + occurs d es

-- The events that the kernel object has delivered are not armed any more.
abbrev pub disarm : List Event → Loop → Loop
disarm es l = record l { armed = λ d. l.armed d - occurs d es }

-- The events of d that are armed, or delivered and not yet taken by a thread.
abbrev pub unread : Loop → List Event
unread l = take (l.num - l.off) (drop l.off l.backlog)

unfoldable pub pending : ℕ → Loop → ℕ
pending d l = l.armed d + occurs d (unread l) + occurs d l.more_queue

-- Whether a thread has an event of d that it may still pass on.
abbrev pub held : ℕ → Phase → ℕ
held d (handling e false removed) = if ident e == d then 1 else 0
held d (arming e) = if ident e == d then 1 else 0
held d _ = 0

pub record System : Type 0 where
  pub loop : Loop
  pub phases : ℕ → Phase

abbrev pub put : System → ℕ → Phase × Loop → System
put s i (p, l) = record { loop = l; phases = update s.phases i p }

-- The constructor, and threads that are about to begin; `armed` are the descriptors that are
-- registered then.
abbrev pub start : (ℕ → ℕ) → System
start armed = record {
  loop = record {
    off = 0;
    num = 0;
    pollable = true;
    backlog = [];
    more_queue = [];
    task_queue = [];
    end_flag = false;
    handlers = λ d. armed d == 1;
    out = init;
    registered = λ d. armed d == 1;
    armed = armed;
  };
  phases = λ i. idle;
}

-- The steps of `n` threads, and of the program around them.
pub data Step (n oi : ℕ) : System → System → Type 0 where
  takes :
      (s : System) (i : ℕ) (reply : Reply) (ready : List Event)
      → i < n
      → s.phases i ≡ idle
      → Step n oi s (put s i (take_work oi reply ready s.loop))
  takes_once :
      (s : System) (i : ℕ) (reply : Reply) (ready : List Event)
      → i < n
      → s.phases i ≡ idle
      → Step n oi s (put s i (run_once oi reply ready s.loop))
  wakes : (s : System) (i : ℕ) → i < n → s.phases i ≡ waiting → Step n oi s (put s i (idle, s.loop))
  polls :
      (s : System) (i : ℕ) (reply : Reply) (ready es : List Event)
      → i < n
      → s.phases i ≡ polling
      → 0 < length es
      → ((d : ℕ) → occurs d es ≤ s.loop.armed d)
      → Step n oi s (put s i (after_poll oi reply ready es (disarm es s.loop)))
  polls_nothing :
      (s : System) (i : ℕ)
      → i < n
      → s.phases i ≡ polling
      → Step n oi s (put s i (poll_again s.loop))
  polls_nothing_once :
      (s : System) (i : ℕ)
      → i < n
      → s.phases i ≡ polling
      → Step n oi s (put s i (poll_returns s.loop))
  poll_fails :
      (s : System) (i : ℕ)
      → i < n
      → s.phases i ≡ polling
      → Step n oi s (put s i (poll_failed, s.loop))
  asks_more :
      (s : System) (i : ℕ) (e : Event) (reactivated removed : Bool)
      → i < n
      → s.phases i ≡ handling e reactivated removed
      → Step n oi s (put s i (more e reactivated removed s.loop))
  asks_next :
      (s : System) (i : ℕ) (e : Event) (reactivated removed : Bool)
      → i < n
      → s.phases i ≡ handling e reactivated removed
      → Step n oi s (put s i (next e reactivated removed s.loop))
  asks_remove :
      (s : System) (i : ℕ) (e : Event) (reactivated removed : Bool)
      → i < n
      → s.phases i ≡ handling e reactivated removed
      → Step n oi s (put s i (remove_event e reactivated removed s.loop))
  returns :
      (s : System) (i : ℕ) (e : Event) (reactivated removed cont : Bool)
      → i < n
      → s.phases i ≡ handling e reactivated removed
      → Step n oi s (put s i (finish e reactivated removed cont s.loop))
  arms :
      (s : System) (i : ℕ) (e : Event)
      → i < n
      → s.phases i ≡ arming e
      → Step n oi s (put s i (idle, reactivate e s.loop))
  writes :
      (s : System) (i : ℕ) (e : Event) (o : Out)
      → i < n
      → s.phases i ≡ writing e
      → o.queue ≡ s.loop.out.queue
      → Step n oi s (put s i (idle, record s.loop { out = o }))
  runs :
      (s : System) (i t : ℕ) (last : Bool)
      → i < n
      → s.phases i ≡ running t last
      → Step n oi s (put s i (idle, s.loop))
  submits : (s : System) (t : ℕ) → Step n oi s (record s { loop = submit t s.loop })
  adds : (s : System) (d : ℕ) → Step n oi s (record s { loop = add_handler d s.loop })
  removes : (s : System) (d : ℕ) → Step n oi s (record s { loop = remove_handler d s.loop })
  ends : (s : System) → Step n oi s (record s { loop = end s.loop })

-- A handler is not added for a descriptor that is registered anew while an event of it is left from
-- before. The code does not look.
abbrev pub IsFresh : {n oi : ℕ} {s t : System} → Step n oi s t → Type 0
IsFresh {n} (Step.adds s d) =
    s.loop.registered d ≡ false → pending d s.loop + count (held d) n s.phases ≡ 0
IsFresh _ = Unit

-- Any number of fresh steps
pub data Reach (n oi : ℕ) (s : System) : System → Type 0 where
  here : Reach n oi s s
  after : {t u : System} → Reach n oi s t → (st : Step n oi t u) → IsFresh st → Reach n oi s u
