-- ===== src/Loop/Valid.antt =====
-- The invariant of mpsrc/wavy_loop.cc, and what follows from it for the threads.
use mathlib.Core.Path.{subst}
use mpio.Prelude.{
  ℕ, ◌+◌, ◌≤◌, ◌<◌, ◌≡◌, ◌≢◌, refl, sym, ap, Bool, false, Bool-cases, inl, inr, ◌==◌, ==→eq, arith,
}
use mpio.Family.{update, count, count-update, count-eq_zero, update_ne}
use mpio.Out.{Event, ident}
use mpio.Loop.{
  Phase, idle, polling, overrun, handling, Loop, System, put, start, Step, takes, takes_once, wakes,
  polls, polls_nothing, polls_nothing_once, poll_fails, asks_more, asks_next, asks_remove, returns,
  arms, writes, runs, submits, adds, removes, ends, add_handler, remove_handler, IsFresh, Reach,
  here, after, pending, held, submit, end,
}
use mpio.Loop.Moves
use mpio.Loop.Moves.{
  overruns, free, InRange, Moves, more-Moves, next-Moves, remove_event-Moves, finish-Moves,
  arm-Moves, poll_again-Moves, poll_returns-Moves,
}
use mpio.Loop.Work.{take_work-Moves, run_once-Moves, after_poll-Moves}

-- The indices stay in the backlog and it is not overrun; the right to poll is with one thread, or
-- `m_pollable` is set; and of each descriptor one event at most is armed, queued, or with a thread that
-- may pass it on.
pub record IsValid (n : ℕ) (s : System) : Type 0 where
  pub range : InRange s.loop
  pub poller : count mpio.Loop.Moves.polls n s.phases + free s.loop ≡ 1
  pub inside : (i : ℕ) → overruns (s.phases i) ≡ 0
  pub tokens : (d : ℕ) → pending d s.loop + count (held d) n s.phases ≤ 1

module _ (n : ℕ) (s : System) (v : IsValid n s) (i : ℕ) (lt : i < n) where
  put-IsValid : (r : Phase × Loop) → Moves (s.phases i) s.loop r → IsValid n (put s i r)
  put-IsValid r m = record {
    range = m.range;
    poller =
        omega (arith, m.poller, v.poller, count-update mpio.Loop.Moves.polls n s.phases i r.0 lt);
    inside = λ j. elim (Bool-cases (i == j)) [
      | inl same ↦ rw same m.inside
      | inr other ↦ rw other (v.inside j)
    ];
    tokens = λ d. omega (arith, m.tokens d, v.tokens d, count-update (held d) n s.phases i r.0 lt);
  }

  -- The same from the phase that the thread is in.
  phase-IsValid :
      (p : Phase) (r : Phase × Loop) → s.phases i ≡ p → Moves p s.loop r → IsValid n (put s i r)
  phase-IsValid p r e m = put-IsValid r (subst (λ q. Moves q s.loop r) (sym e) m)

  -- While a thread polls, no other may begin to.
  pub closed : s.phases i ≡ polling → free s.loop ≡ 0
  closed e = omega (
    arith,
    v.poller,
    ap mpio.Loop.Moves.polls e,
    count-update mpio.Loop.Moves.polls n s.phases i idle lt,
  )

  -- A step that only ends what the thread does.
  ended-IsValid :
      (p q : Phase)
      → s.phases i ≡ p
      → mpio.Loop.Moves.polls q ≡ mpio.Loop.Moves.polls p
      → overruns q ≡ 0
      → ((d : ℕ) → held d q ≤ held d p)
      → IsValid n (put s i (q, s.loop))
  ended-IsValid p q e same none fewer =
      phase-IsValid p (q, s.loop) e
        (record {
          range = v.range;
          poller = omega (arith, same);
          inside = none;
          tokens = λ d. omega (arith, fewer d);
        })

-- A handler that is added or removed while the threads run.
module _ (n : ℕ) (s : System) (d : ℕ) where
  added :
      (s.loop.registered d ≡ false → pending d s.loop + count (held d) n s.phases ≡ 0)
      → (j : ℕ) → pending j s.loop + count (held j) n s.phases ≤ 1
      → pending j (add_handler d s.loop) + count (held j) n s.phases ≤ 1
  unfolding pending add_handler
  added none_left j h = elim (Bool-cases (s.loop.registered d)) [
    | inl known ↦ simp known h
    | inr new ↦ simp new (elim (Bool-cases (d == j)) [
      | inl same ↦ rw same (
          let z : pending j s.loop + count (held j) n s.phases ≡ 0 =
            subst (λ k. pending k s.loop + count (held k) n s.phases ≡ 0) (==→eq d j same)
              (none_left new) in
          omega (arith, z))
      | inr other ↦ rw other h
    ])
  ]

  removed :
      (j : ℕ)
      → pending j s.loop + count (held j) n s.phases ≤ 1
      → pending j (remove_handler d s.loop) + count (held j) n s.phases ≤ 1
  unfolding pending remove_handler
  removed j h = elim (Bool-cases (d == j)) [
    | inl same ↦ rw same (omega arith)
    | inr other ↦ rw other h
  ]

-- Every step keeps the invariant.
pub Step-IsValid :
    (n oi : ℕ) {s t : System} (st : Step n oi s t) → IsFresh st → IsValid n s → IsValid n t
unfolding pending submit end add_handler remove_handler
Step-IsValid n oi (takes s i reply ready lt e) fresh v =
    phase-IsValid n s v i lt idle _ e (take_work-Moves oi reply ready s.loop v.range)
Step-IsValid n oi (takes_once s i reply ready lt e) fresh v =
    phase-IsValid n s v i lt idle _ e (run_once-Moves oi reply ready s.loop v.range)
Step-IsValid n oi (wakes s i lt e) fresh v =
    ended-IsValid n s v i lt _ idle e refl refl (λ d. omega arith)
Step-IsValid n oi (polls s i reply ready es lt e some_es armed) fresh v =
    phase-IsValid n s v i lt polling _ e
      (after_poll-Moves oi reply ready es s.loop some_es armed (closed n s v i lt e))
Step-IsValid n oi (polls_nothing s i lt e) fresh v =
    phase-IsValid n s v i lt polling _ e (poll_again-Moves s.loop v.range (closed n s v i lt e))
Step-IsValid n oi (polls_nothing_once s i lt e) fresh v =
    phase-IsValid n s v i lt polling _ e (poll_returns-Moves s.loop v.range (closed n s v i lt e))
Step-IsValid n oi (poll_fails s i lt e) fresh v =
    ended-IsValid n s v i lt polling _ e refl refl (λ d. omega arith)
Step-IsValid n oi (asks_more s i e re rm lt at) fresh v =
    phase-IsValid n s v i lt _ _ at (more-Moves e re rm s.loop v.range)
Step-IsValid n oi (asks_next s i e re rm lt at) fresh v =
    phase-IsValid n s v i lt _ _ at (next-Moves e re rm s.loop v.range)
Step-IsValid n oi (asks_remove s i e re rm lt at) fresh v =
    phase-IsValid n s v i lt _ _ at (remove_event-Moves e re rm s.loop v.range)
Step-IsValid n oi (returns s i e re rm cont lt at) fresh v =
    phase-IsValid n s v i lt _ _ at (finish-Moves e re rm cont s.loop v.range)
Step-IsValid n oi (arms s i e lt at) fresh v =
    phase-IsValid n s v i lt _ _ at (arm-Moves e s.loop v.range)
Step-IsValid n oi (writes s i e o lt at same) fresh v =
    let w : IsValid n (put s i (idle, s.loop)) =
      ended-IsValid n s v i lt _ idle at refl refl (λ d. omega arith) in
    record { range = w.range; poller = w.poller; inside = w.inside; tokens = w.tokens }
Step-IsValid n oi (runs s i t last lt at) fresh v =
    ended-IsValid n s v i lt _ idle at refl refl (λ d. omega arith)
Step-IsValid n oi (submits s t) fresh v = record {
  range = v.range;
  poller = v.poller;
  inside = v.inside;
  tokens = v.tokens;
}
Step-IsValid n oi (adds s d) none_left v = record {
  range = v.range;
  poller = v.poller;
  inside = v.inside;
  tokens = λ j. added n s d none_left j (v.tokens j);
}
Step-IsValid n oi (removes s d) fresh v = record {
  range = v.range;
  poller = v.poller;
  inside = v.inside;
  tokens = λ j. removed n s d j (v.tokens j);
}
Step-IsValid n oi (ends s) fresh v = record {
  range = v.range;
  poller = v.poller;
  inside = v.inside;
  tokens = v.tokens;
}

pub start-IsValid : (n : ℕ) (armed : ℕ → ℕ) → ((d : ℕ) → armed d ≤ 1) → IsValid n (start armed)
unfolding pending
start-IsValid n armed few = record {
  range = (omega arith, omega arith);
  poller = omega (arith, count-eq_zero mpio.Loop.Moves.polls n (λ i. idle) (λ i lt. refl));
  inside = λ i. refl;
  tokens = λ d. omega (arith, few d, count-eq_zero (held d) n (λ i. idle) (λ i lt. refl));
}

-- However the threads of a loop interleave, its invariant holds, where at first each descriptor is
-- armed once at most and one that is registered anew has no event left from before: the indices stay
-- in the backlog, which is not overrun, the right to poll is with one thread or `m_pollable` is set,
-- and of each descriptor one event at most is armed, queued or with a thread that may pass it on.
pub Reach-IsValid :
    (n oi : ℕ) (armed : ℕ → ℕ) {s : System}
    → ((d : ℕ) → armed d ≤ 1)
    → Reach n oi (start armed) s
    → IsValid n s
Reach-IsValid n oi armed few here = start-IsValid n armed few
Reach-IsValid n oi armed few (after r st fresh) =
    Step-IsValid n oi st fresh (Reach-IsValid n oi armed few r)

module _ (weight : Phase → ℕ) (n : ℕ) (f : ℕ → Phase) (none : weight idle ≡ 0) where
  pub two-count : (i j : ℕ) → i < n → j < n → i ≢ j → weight (f i) + weight (f j) ≤ count weight n f
  two-count i j lt lt' ne =
      let other : update f i idle j ≡ f j = update_ne f i j idle ne in
      omega (
        arith,
        none,
        ap weight other,
        count-update weight n f i idle lt,
        count-update weight n (update f i idle) j idle lt',
      )

-- However the threads interleave, where at first each descriptor is armed once at most and a
-- descriptor that is registered anew has no event left from before: two threads that handle
-- events and have not passed them on handle events of different descriptors.
pub one_handler :
    (n oi : ℕ) (armed : ℕ → ℕ) (s : System) (i j : ℕ) (e e' : Event) (rm rm' : Bool)
    → ((d : ℕ) → armed d ≤ 1)
    → Reach n oi (start armed) s
    → i < n
    → j < n
    → i ≢ j
    → s.phases i ≡ handling e false rm
    → s.phases j ≡ handling e' false rm'
    → ident e ≢ ident e'
one_handler n oi armed s i j e e' rm rm' few r lt lt' ne at at' same = ground (
  arith,
  v.tokens (ident e),
  two-count (held (ident e)) n s.phases refl i j lt lt' ne,
  ap (held (ident e)) at,
  ap (held (ident e)) at',
  same,
)
  where
    v : IsValid n s
    v = Reach-IsValid n oi armed few r

-- However the threads interleave, where at first each descriptor is armed once at most and one that is
-- registered anew has no event left from before, two threads never poll at once.
pub one_poller :
    (n oi : ℕ) (armed : ℕ → ℕ) (s : System) (i j : ℕ)
    → ((d : ℕ) → armed d ≤ 1)
    → Reach n oi (start armed) s
    → i < n
    → j < n
    → i ≢ j
    → s.phases i ≡ polling
    → s.phases j ≢ polling
one_poller n oi armed s i j few r lt lt' ne at at' = omega (
  arith,
  v.poller,
  two-count mpio.Loop.Moves.polls n s.phases refl i j lt lt' ne,
  ap mpio.Loop.Moves.polls at,
  ap mpio.Loop.Moves.polls at',
)
  where
    v : IsValid n s
    v = Reach-IsValid n oi armed few r
