-- ===== src/Tests/Interest.antt =====
-- The theorems on the interest list of epoll and on the queue of tasks (mpsrc/wavy_loop.cc) at concrete
-- data: descriptor 7 is in the list and disabled.
use mpio.Prelude.{
  ℕ, ◌≡◌, ◌+◌, ◌*◌, ◌^◌, refl, List, [], ◌∷◌, ◌++◌, Option, none, some, true, false, ltb, ◌==◌,
  if◌then◌else◌, arith,
}
use mpio.Os.{Errno, Reply}
use mpio.Posix.{Posix, Request}
use mpio.Kernel
use mpio.Out.{Event, init}
use mpio.Loop.{Loop, Reach, start, System, Step, after, here, occurs, submit, put, take_work}
use mpio.Loop.Interest.{Entry, changed, deliver}
use mpio.Loop.Waiting.OneWorker.{Starves, one_worker-Starves}
use mpio.Loop.Tasks.{begun, submitted}
use mpio.Loop.Tasks.Fifo.{begun-queue}

abbrev Interest : Type 0
Interest = ℕ → Option Entry

-- An event of descriptor 7 is delivered where its entry is enabled.
abbrev ready : Option Entry → List Event
ready none = []
ready (some x) = if x.enabled then 7 ∷ [] else []

abbrev delivered : Interest → Option ℕ → List Event
delivered w t = ready (w 7)

abbrev new_entry : ℕ → ℕ → Entry
new_entry mask udata = record { mask = mask; udata = udata; enabled = true }

-- EEXIST is 17.
abbrev added : Option Entry → Interest → ℕ → ℕ → ℕ → Reply × Interest
added none w fd mask udata =
    (Reply.done 0, λ d. if d == fd then some (new_entry mask udata) else w d)
added (some x) w fd mask udata = (Reply.failed (Errno.other 17), w)

abbrev asked : Interest → Request → Reply × Interest
asked w (Request.epoll_add fd mask udata) = added (w fd) w fd mask udata
asked w (Request.epoll_mod fd mask udata) =
    (Reply.done 0, λ d. if d == fd then changed (λ x. new_entry mask udata) (w fd) else w d)
asked w (Request.epoll_del fd) = (Reply.done 0, λ d. if d == fd then none else w d)
asked w (Request.epoll_wait k t) =
    (Reply.done 1, λ d. if ltb 0 (occurs d (delivered w t)) then changed deliver (w d) else w d)
asked w _ = (Reply.done 0, w)

abbrev epoll : Posix Interest
epoll = record {
  create = λ w c. (Reply.done 3, w);
  request = λ w fd r. asked w r;
  close = λ w fd. w;
  getrlimit = λ w. (Reply.done 1024, w);
}

-- The entry of descriptor 7 is disabled.
abbrev seven : Event
seven = 7 + (1 + 2 ^ 30) * 2 ^ 32

abbrev idle_seven : Interest
idle_seven d =
    if d == 7 then some (record { mask = 1 + 2 ^ 30; udata = seven; enabled = false }) else none

abbrev loop : Loop
loop = record {
  off = 0;
  num = 0;
  pollable = true;
  backlog = [];
  more_queue = [];
  task_queue = [];
  end_flag = false;
  handlers = λ d. d == 7;
  out = init;
  registered = λ d. d == 7;
  armed = λ d. 0;
}

abbrev none_armed : ℕ → ℕ
none_armed d = 0

-- Two tasks are submitted, and a thread takes one.
abbrev first : System
first = record (start none_armed) { loop = submit 8 (start none_armed).loop }

abbrev second : System
second = record first { loop = submit 9 first.loop }

abbrev third : System
third = put second 0 (take_work 3 (Reply.done 0) [] second.loop)

two_tasks : Reach 1 3 (start none_armed) third
two_tasks =
    after (after (after here (Step.submits (start none_armed) 8) tt) (Step.submits first 9) tt)
      (Step.takes second 0 (Reply.done 0) [] (omega arith) refl) tt

begun-queue_example : begun two_tasks ++ third.loop.task_queue ≡ submitted two_tasks
begun-queue_example = begun-queue none_armed two_tasks

one_worker-Starves_example : Starves second.loop (take_work 3 (Reply.done 0) [] second.loop).0
one_worker-Starves_example =
    one_worker-Starves 3 none_armed second (Reply.done 0) [] (λ d. omega arith)
      (after (after here (Step.submits (start none_armed) 8) tt) (Step.submits first 9) tt) refl
