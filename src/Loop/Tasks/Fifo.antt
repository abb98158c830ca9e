-- ===== src/Loop/Tasks/Fifo.antt =====
-- The tasks of mpsrc/wavy_loop.cc are begun in the order in which they were submitted, each once.
use mpio.Prelude.{
  ℕ, ◌≡◌, refl, sym, ap, ◌∙◌, ◌++◌, append-nil, append_assoc, Bool, true, false, Bool-cases, inl,
  inr,
}
use mpio.Out.{Event}
use mpio.Loop.{
  Loop, System, start, Step, takes, takes_once, wakes, polls, polls_nothing, polls_nothing_once,
  poll_fails, asks_more, asks_next, asks_remove, returns, arms, writes, runs, submits, adds,
  removes, ends, Reach, here, after, more, next, remove_event, finish, submit, end, add_handler,
  remove_handler, disarm, poll_again, poll_returns,
}
use mpio.Loop.Tasks.{submitted_by, begun_by, submitted, begun}
use mpio.Loop.Tasks.Taken.{take_work-Takes, run_once-Takes, after_poll-Takes}

-- What a handler asks for, and what ends a poll, takes no task.
more-queue : (e : Event) (re rm : Bool) (l : Loop) → l.task_queue ≡ (more e re rm l).1.task_queue
unfolding more
more-queue e true rm l = refl
more-queue e false rm l = refl

next-queue : (e : Event) (re rm : Bool) (l : Loop) → l.task_queue ≡ (next e re rm l).1.task_queue
unfolding next
next-queue e true rm l = refl
next-queue e false rm l = refl

remove_event-queue :
    (e : Event) (re rm : Bool) (l : Loop) → l.task_queue ≡ (remove_event e re rm l).1.task_queue
unfolding remove_event
remove_event-queue e re true l = refl
remove_event-queue e re false l = refl

finish-queue :
    (e : Event) (re rm cont : Bool) (l : Loop) → l.task_queue ≡ (finish e re rm cont l).1.task_queue
unfolding finish
finish-queue e true rm cont l = refl
finish-queue e false true cont l = refl
finish-queue e false false true l = refl
finish-queue e false false false l = refl

poll_again-queue : (l : Loop) → l.task_queue ≡ (poll_again l).1.task_queue
unfolding poll_again
poll_again-queue l = elim (Bool-cases l.end_flag) [
  | inl over ↦ simp over refl
  | inr on ↦ simp on refl
]

module _ {n oi : ℕ} where
  -- What is submitted goes to the back of the queue, and what is begun was at its front.
  Step-queue :
      {s t : System} (st : Step n oi s t)
      → s.loop.task_queue ++ submitted_by st ≡ begun_by st ++ t.loop.task_queue
  unfolding submit end add_handler remove_handler poll_returns
  Step-queue (takes s i reply ready lt e) =
      append-nil s.loop.task_queue ∙ take_work-Takes oi reply ready s.loop
  Step-queue (takes_once s i reply ready lt e) =
      append-nil s.loop.task_queue ∙ run_once-Takes oi reply ready s.loop
  Step-queue (wakes s i lt e) = append-nil s.loop.task_queue
  Step-queue (polls s i reply ready es lt e some_es armed) =
      append-nil s.loop.task_queue ∙ after_poll-Takes oi reply ready es (disarm es s.loop)
  Step-queue (polls_nothing s i lt e) = append-nil s.loop.task_queue ∙ poll_again-queue s.loop
  Step-queue (polls_nothing_once s i lt e) = append-nil s.loop.task_queue
  Step-queue (poll_fails s i lt e) = append-nil s.loop.task_queue
  Step-queue (asks_more s i e re rm lt at) =
      append-nil s.loop.task_queue ∙ more-queue e re rm s.loop
  Step-queue (asks_next s i e re rm lt at) =
      append-nil s.loop.task_queue ∙ next-queue e re rm s.loop
  Step-queue (asks_remove s i e re rm lt at) =
      append-nil s.loop.task_queue ∙ remove_event-queue e re rm s.loop
  Step-queue (returns s i e re rm cont lt at) =
      append-nil s.loop.task_queue ∙ finish-queue e re rm cont s.loop
  Step-queue (arms s i e lt at) = append-nil s.loop.task_queue
  Step-queue (writes s i e o lt at same) = append-nil s.loop.task_queue
  Step-queue (runs s i t last lt at) = append-nil s.loop.task_queue
  Step-queue (submits s t) = refl
  Step-queue (adds s d) = append-nil s.loop.task_queue
  Step-queue (removes s d) = append-nil s.loop.task_queue
  Step-queue (ends s) = append-nil s.loop.task_queue

  -- However the threads interleave, where a descriptor that is registered anew has no event left
  -- from before: the tasks that were begun, followed by those in the queue, are the tasks that
  -- were submitted, in order. Each is begun once at most, the oldest first, and none is lost.
  pub begun-queue :
      (armed : ℕ → ℕ) {s : System} (r : Reach n oi (start armed) s)
      → begun r ++ s.loop.task_queue ≡ submitted r
  unfolding begun submitted
  begun-queue armed here = refl
  begun-queue armed (after {t} {u} r st fresh) =
      append_assoc (begun r) (begun_by st) u.loop.task_queue
      ∙ ap (◌++◌ (begun r)) (sym (Step-queue st))
      ∙ sym (append_assoc (begun r) t.loop.task_queue (submitted_by st))
      ∙ ap (λ q. q ++ submitted_by st) (begun-queue armed r)
