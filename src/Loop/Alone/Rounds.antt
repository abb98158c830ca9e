-- ===== src/Loop/Alone/Rounds.antt =====
-- The rounds of `flush` (mpsrc/wavy_loop.cc) without worker threads: a task, a report of a descriptor that
-- can be written, or a poll.
use mpio.Prelude.{
  ℕ, ◌+◌, ◌*◌, ◌<◌, ◌≡◌, ◌≢◌, refl, sym, ap, ◌∙◌, List, [], ◌∷◌, ◌++◌, append_assoc, length, true,
  false, is_empty, take, Bool-cases, inl, inr, ◌==◌, ==→eq, arith, if◌then◌else◌,
}
use mathlib.Core.Path.{subst, fun_ext}
use mpio.Memory.{returned}
use mpio.Os.{Reply, Os, IsLawful, Answers}
use mpio.Family.{update, count, count-update}
use mpio.Xfer.Command.{Command, AllSome}
use mpio.Xfer.Items.{items_all}
use mpio.Out.{Out, Event, ident, Step, write_event}
use mpio.Out.Valid.{IsValid, busy, is_registered}
use mpio.Loop.{
  Loop, running, writing, polling, run_once, once_more, once_queued, do_task, do_queues,
  poll_or_take,
}
use mpio.Loop.Alone.{Env, State, Ended, returns, requests, queue_rest, once_rest, once}

-- The events are of watched descriptors below `n`, and each of another one.
abbrev pub Absent : ℕ → List Event → Type 0
Absent d [] = Unit
Absent d (e ∷ es) = (d ≢ ident e) × Absent d es

abbrev pub Queued : ℕ → (ℕ → List Command) → List Event → Type 0
Queued n cmds [] = Unit
Queued n cmds (e ∷ es) =
    (ident e < n) × (cmds (ident e) ≢ []) × Absent (ident e) es × Queued n cmds es

-- What is left for a descriptor: its items, and one more while it is watched.
abbrev pub weight : List Command → ℕ
weight cs = busy cs + length (items_all cs)

module _ {W : Type 0} (n oi : ℕ) where
  pub record Flushing (cmds : ℕ → List Command) (s : State W) : Type 0 where
    pub on : s.loop.end_flag ≡ false
    pub no_more : s.loop.more_queue ≡ []
    pub pollable : s.loop.pollable ≡ true
    pub read : s.loop.num ≡ s.loop.off
    pub known : s.loop.registered oi ≡ true
    pub armed : s.loop.armed oi ≡ 1
    pub valid : IsValid n cmds s.loop.out
    pub full : (i : ℕ) → AllSome (cmds i)
    pub queued : Queued n cmds s.loop.out.queue

  abbrev pub measure : (ℕ → List Command) → State W → ℕ
  measure cmds s =
      2 * count weight n cmds
      + length s.loop.task_queue
      + (if is_empty s.loop.out.queue then 1 else 0)

  -- A round that returns, with less left to do and nothing lost.
  pub record Round (cmds : ℕ → List Command) (s : State W) (r : Ended (State W)) : Type 0 where
    pub after : ℕ → List Command
    pub left : State W
    pub ends : r ≡ returns left
    pub keeps : Flushing after left
    pub less : measure after left < measure cmds s
    pub done : (i : ℕ) → left.done i ++ items_all (after i) ≡ s.done i ++ items_all (cmds i)
    pub ran : left.ran ++ left.loop.task_queue ≡ s.ran ++ s.loop.task_queue

pub Queued-after :
    (n : ℕ) (cmds after : ℕ → List Command) (d : ℕ) (es : List Event)
    → ((j : ℕ) → d ≢ j → after j ≡ cmds j)
    → Absent d es
    → Queued n cmds es
    → Queued n after es
Queued-after n cmds after d [] same a q = tt
Queued-after n cmds after d (e ∷ es) same a q = (
  q.0,
  (λ z. q.1 (sym (same (ident e) a.0) ∙ z)),
  q.2,
  Queued-after n cmds after d es same a.1 q.3,
)

-- The count changes at one descriptor.
pub count-others :
    (n : ℕ) (cmds after : ℕ → List Command) (d : ℕ)
    → d < n
    → ((j : ℕ) → d ≢ j → after j ≡ cmds j)
    → count weight n after + weight (cmds d) ≡ count weight n cmds + weight (after d)
count-others n cmds after d lt same =
    let e : after ≡ update cmds d (after d) = fun_ext (λ j. elim (Bool-cases (d == j)) [
      | inl here ↦ rw here (ap after (sym (==→eq d j here)))
      | inr other ↦ rw other (same j (ground arith))
    ]) in
    subst (λ f. count weight n f + weight (cmds d) ≡ count weight n cmds + weight (after d)) (sym e)
      (count-update weight n cmds d (after d) lt)

pub IsValid-queue :
    (n : ℕ) (cmds : ℕ → List Command) (o : Out) (q : List Event)
    → IsValid n cmds o
    → IsValid n cmds (record o { queue = q })
IsValid-queue n cmds o q v = record {
  holds = v.holds;
  counted = v.counted;
  registered = v.registered;
}

-- `write_event` leaves the queue of reports as it is.
pub write_event-queue :
    {W : Type 0} (os : Os W) (o : Out) (e : Event) (w : W) (t : Step W)
    → write_event os o e w ≡ returned t
    → t.out.queue ≡ o.queue
unfolding write_event
write_event-queue os o e w t h = ground arith

-- What the environment of `flush` does: the calls of the system take some of each request; while a
-- descriptor is registered with out's kernel object, that reports some, each once, and the loop's reports
-- it; and a task asks nothing of the loop.
abbrev pub Registered : ℕ → Out → List Event → Type 0
Registered n o [] = Unit
Registered n o (e ∷ es) =
    (ident e < n)
    × (is_registered (ident e) o.calls ≡ true)
    × Absent (ident e) es
    × Registered n o es

pub record Reports (n : ℕ) (o : Out) (r : Reply × List Event) : Type 0 where
  pub num : ℕ
  pub first : Event
  pub others : List Event
  pub replies : r.0 ≡ Reply.done num
  pub gives : take num r.1 ≡ first ∷ others
  pub registered : Registered n o (first ∷ others)

pub record Wakes (oi : ℕ) (r : Reply × List Event) : Type 0 where
  pub event : Event
  pub rest : List Event
  pub own : ident event ≡ oi
  pub replies : r ≡ (Reply.done 1, event ∷ rest)

pub record Serves {W : Type 0} (n oi : ℕ) (env : Env W) : Type 0 where
  pub lawful : IsLawful env.os
  pub answers : Answers ⊥ env.os
  pub wakes :
      (l : Loop) (w : W) (i : ℕ)
      → l.armed oi ≡ 1
      → i < n
      → is_registered i l.out.calls ≡ true
      → Wakes oi (env.wait true l w).0
  pub reports :
      (l : Loop) (w : W) (i : ℕ)
      → l.out.queue ≡ []
      → i < n
      → is_registered i l.out.calls ≡ true
      → Reports n l.out (env.ready l w)
  pub quiet : (t : ℕ) (w : W) → (env.task t w).0 ≡ []

module _ {W : Type 0} (n oi : ℕ) (env : Env W) (law : Serves n oi env) (cmds : ℕ → List Command)
    (s : State W) (v : Flushing n oi cmds s) where
  pub once-task :
      (t : ℕ) (ts : List ℕ)
      → s.loop.task_queue ≡ t ∷ ts
      → run_once oi (env.ready s.loop s.world).0 (env.ready s.loop s.world).1 s.loop
        ≡ (running t (is_empty ts), record s.loop { task_queue = ts })
  unfolding run_once once_more once_queued do_task
  once-task t ts tasks = rw (v.on, v.no_more, v.pollable, tasks) refl

  pub once-write :
      (e : Event) (es : List Event)
      → s.loop.task_queue ≡ []
      → s.loop.out.queue ≡ e ∷ es
      → run_once oi (env.ready s.loop s.world).0 (env.ready s.loop s.world).1 s.loop
        ≡ (writing e, record s.loop { out = record s.loop.out { queue = es } })
  unfolding run_once once_more once_queued do_queues
  once-write e es tasks queue = rw (v.on, v.no_more, v.pollable, tasks, queue) refl

  pub once-poll :
      s.loop.task_queue ≡ []
      → s.loop.out.queue ≡ []
      → run_once oi (env.ready s.loop s.world).0 (env.ready s.loop s.world).1 s.loop
        ≡ (polling, record s.loop { pollable = false })
  unfolding run_once once_more once_queued poll_or_take
  once-poll tasks queue = rw (v.on, v.no_more, v.pollable, tasks, queue) (ground (arith, v.read))

  pub task-Round :
      (t : ℕ) (ts : List ℕ) → s.loop.task_queue ≡ t ∷ ts → Round n oi cmds s (once oi env true s)
  unfolding once once_rest queue_rest requests
  task-Round t ts tasks =
      rw (once-task t ts tasks, law.quiet t s.world)
        (record {
          after = cmds;
          left = record s {
            loop = record s.loop { task_queue = ts };
            world = (env.task t s.world).1;
            ran = s.ran ++ (t ∷ []);
          };
          ends = refl;
          keeps = record {
            on = v.on;
            no_more = v.no_more;
            pollable = v.pollable;
            read = v.read;
            known = v.known;
            armed = v.armed;
            valid = v.valid;
            full = v.full;
            queued = v.queued;
          };
          less = omega (arith, ap length tasks);
          done = λ i. refl;
          ran = append_assoc s.ran (t ∷ []) ts ∙ ap (◌++◌ s.ran) (sym tasks);
        })
