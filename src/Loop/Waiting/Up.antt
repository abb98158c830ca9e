-- ===== src/Loop/Waiting/Up.antt =====
-- The threads of mpsrc/wavy_loop.cc never all wait.
use mpio.Prelude.{ℕ, ◌≤◌, ◌<◌, ◌≡◌, ◌⊎◌, refl, sym, ◌∙◌, Bool, true, false, inl, inr, arith}
use mathlib.Core.Path.{subst}
use mpio.Family.{count-some, update_self}
use mpio.Loop.{
  Phase, idle, waiting, polling, stopped, poll_failed, crashed, overrun, handling, arming, running,
  writing, Loop, System, put, start, Step, takes, takes_once, wakes, polls, polls_nothing,
  polls_nothing_once, poll_fails, asks_more, asks_next, asks_remove, returns, arms, writes, runs,
  submits, adds, removes, ends, Reach, here, after, do_task, do_queues, polled_out, process, found,
  from_backlog, poll_or_take, take_queued, take_more, take_work, once_queued, once_more, run_once,
  after_poll, disarm, poll_again, poll_returns, more, next, remove_event, finish, end, submit,
  add_handler, remove_handler,
}
use mpio.Loop.Moves
use mpio.Loop.Moves.{free, InRange}
use mpio.Loop.Valid.{IsValid, Reach-IsValid}
use mpio.Loop.Waiting.{
  IsUp, Rests, take_work-Rests, run_once-Rests, after_poll-Rests, poll_again-Rests,
  poll_returns-Rests, more-Rests, next-Rests, remove_event-Rests, finish-Rests,
}

-- An exception has not ended the thread.
abbrev pub IsAlive : Phase → Type 0
IsAlive poll_failed = ⊥
IsAlive crashed = ⊥
IsAlive _ = Unit

-- The thread goes on: it does not wait for the condition, and has not ended.
abbrev pub IsActive : Phase → Type 0
IsActive waiting = ⊥
IsActive stopped = ⊥
IsActive poll_failed = ⊥
IsActive crashed = ⊥
IsActive _ = Unit

-- Before the end flag is set, some thread is up.
abbrev SomeUp : ℕ → System → Type 0
SomeUp n s = (s.loop.end_flag ≡ true) ⊎ ((i : ℕ) × (i < n) × IsUp (s.phases i))

module _ (n : ℕ) (s : System) (v : IsValid n s) where
  IsUp-polls : (p : Phase) → 0 < mpio.Loop.Moves.polls p → IsUp p
  IsUp-polls polling h = tt
  IsUp-polls poll_failed h = tt
  IsUp-polls _ h = absurd (omega (arith, h))

  -- Where `m_pollable` is not set, a thread polls.
  poller-up : s.loop.pollable ≡ false → SomeUp n s
  poller-up closed =
      let (i, lt, p) =
        count-some mpio.Loop.Moves.polls n s.phases
          (omega (arith, v.poller, closed_free s.loop closed)) in
      inr (i, lt, IsUp-polls (s.phases i) p)
    where
      closed_free : (l : Loop) → l.pollable ≡ false → free l ≡ 0
      closed_free l h = simp h refl

  phase-up : (i : ℕ) (p : Phase) → i < n → s.phases i ≡ p → Rests (p, s.loop) → SomeUp n s
  phase-up i waiting lt e r = poller-up r
  phase-up i stopped lt e r = inl r
  phase-up i idle lt e r = inr (i, lt, subst IsUp (sym e) tt)
  phase-up i polling lt e r = inr (i, lt, subst IsUp (sym e) tt)
  phase-up i poll_failed lt e r = inr (i, lt, subst IsUp (sym e) tt)
  phase-up i crashed lt e r = inr (i, lt, subst IsUp (sym e) tt)
  phase-up i overrun lt e r = inr (i, lt, subst IsUp (sym e) tt)
  phase-up i (handling ev re rm) lt e r = inr (i, lt, subst IsUp (sym e) tt)
  phase-up i (arming ev) lt e r = inr (i, lt, subst IsUp (sym e) tt)
  phase-up i (writing ev) lt e r = inr (i, lt, subst IsUp (sym e) tt)
  phase-up i (running t last) lt e r = inr (i, lt, subst IsUp (sym e) tt)

put-up :
    (n : ℕ) (s : System) (i : ℕ) (r : Phase × Loop)
    → i < n
    → IsValid n (put s i r)
    → Rests r
    → SomeUp n (put s i r)
put-up n s i r lt v rests = phase-up n (put s i r) v i r.0 lt (update_self s.phases i r.0) rests

Step-up : (n oi : ℕ) {s t : System} → Step n oi s t → IsValid n t → SomeUp n s → SomeUp n t
unfolding submit end add_handler remove_handler
Step-up n oi (takes s i reply ready lt e) v u =
    put-up n s i _ lt v (take_work-Rests oi reply ready s.loop)
Step-up n oi (takes_once s i reply ready lt e) v u =
    put-up n s i _ lt v (run_once-Rests oi reply ready s.loop)
Step-up n oi (wakes s i lt e) v u = put-up n s i _ lt v tt
Step-up n oi (polls s i reply ready es lt e some_es armed) v u =
    put-up n s i _ lt v (after_poll-Rests oi reply ready es (disarm es s.loop))
Step-up n oi (polls_nothing s i lt e) v u = put-up n s i _ lt v (poll_again-Rests s.loop)
Step-up n oi (polls_nothing_once s i lt e) v u = put-up n s i _ lt v (poll_returns-Rests s.loop)
Step-up n oi (poll_fails s i lt e) v u = put-up n s i _ lt v tt
Step-up n oi (asks_more s i e re rm lt at) v u = put-up n s i _ lt v (more-Rests e re rm s.loop)
Step-up n oi (asks_next s i e re rm lt at) v u = put-up n s i _ lt v (next-Rests e re rm s.loop)
Step-up n oi (asks_remove s i e re rm lt at) v u =
    put-up n s i _ lt v (remove_event-Rests e re rm s.loop)
Step-up n oi (returns s i e re rm cont lt at) v u =
    put-up n s i _ lt v (finish-Rests e re rm cont s.loop)
Step-up n oi (arms s i e lt at) v u = put-up n s i _ lt v tt
Step-up n oi (writes s i e o lt at same) v u = put-up n s i _ lt v tt
Step-up n oi (runs s i t last lt at) v u = put-up n s i _ lt v tt
Step-up n oi (submits s t) v u = u
Step-up n oi (adds s d) v u = u
Step-up n oi (removes s d) v u = u
Step-up n oi (ends s) v u = inl refl

-- However the threads interleave.
Reach-up :
    (n oi : ℕ) (armed : ℕ → ℕ) {s : System}
    → ((d : ℕ) → armed d ≤ 1)
    → 0 < n
    → Reach n oi (start armed) s
    → SomeUp n s
Reach-up n oi armed few pos here = inr (0, pos, tt)
Reach-up n oi armed few pos (after r st fresh) =
    Step-up n oi st (Reach-IsValid n oi armed few (after r st fresh))
      (Reach-up n oi armed few pos r)

-- However the threads interleave, where at first each descriptor is armed once at most and a
-- descriptor that is registered anew has no event left from before, there is a thread, and no
-- exception has ended a thread: before the end flag is set, some thread neither waits for the
-- condition nor has ended, so the threads never all wait.
pub some-IsActive :
    (n oi : ℕ) (armed : ℕ → ℕ) (s : System)
    → ((d : ℕ) → armed d ≤ 1)
    → 0 < n
    → ((i : ℕ) → i < n → IsAlive (s.phases i))
    → Reach n oi (start armed) s
    → s.loop.end_flag ≡ false
    → (i : ℕ) × (i < n) × IsActive (s.phases i)
some-IsActive n oi armed s few pos alive r on = elim (Reach-up n oi armed few pos r) [
  | inl over ↦ absurd (apart (sym over ∙ on))
  | inr (i, lt, up) ↦ (i, lt, both (s.phases i) up (alive i lt))
]
  where
    apart : ◌≡◌ {A = Bool} true false → ⊥
    apart h = cc

    both : (p : Phase) → IsUp p → IsAlive p → IsActive p
    both waiting u a = u
    both stopped u a = u
    both poll_failed u a = a
    both crashed u a = a
    both _ u a = tt
