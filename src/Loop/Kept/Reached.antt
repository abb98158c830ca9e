-- ===== src/Loop/Kept/Reached.antt =====
-- No event is lost, however the threads of mpsrc/wavy_loop.cc interleave.
use mathlib.Core.Path.{subst}
use native.Mathlib.Decide.{dec_lt}
use mpio.Prelude.{
  ℕ, ◌+◌, ◌≤◌, ◌<◌, ◌≡◌, ◌≢◌, refl, sym, ◌∙◌, Bool, true, false, Bool-cases, inl, inr, ◌==◌, arith,
}
use mpio.Family.{update, count, count-update}
use mpio.Out.{ident}
use mpio.Loop.{
  Phase, idle, polling, handling, Loop, System, put, start, Step, takes, takes_once, wakes, polls,
  polls_nothing, polls_nothing_once, poll_fails, asks_more, asks_next, asks_remove, returns, arms,
  writes, runs, submits, adds, removes, ends, add_handler, remove_handler, IsFresh, Reach, here,
  after, pending, held, submit, end,
}
use mpio.Loop.Moves.{free}
use mpio.Loop.Valid.{IsValid, closed, Reach-IsValid}
use mpio.Loop.Kept.{Gone, IsRead, Keeps}
use mpio.Loop.Kept.Asks.{
  same-Keeps, more-Keeps, next-Keeps, remove_event-Keeps, finish-Keeps, arm-Keeps,
}
use mpio.Loop.Kept.Rounds.{
  take_work-Keeps, run_once-Keeps, after_poll-Keeps, poll_again-Keeps, poll_returns-Keeps,
}

-- A handler that is set is registered, and of each descriptor that is registered, other than out's, an
-- event is armed, queued, or with a thread that may pass it on.
pub record IsKept (n oi : ℕ) (s : System) : Type 0 where
  pub kept :
      (d : ℕ)
      → d ≢ oi
      → s.loop.registered d ≡ true
      → 1 ≤ pending d s.loop + count (held d) n s.phases
  pub handled : (d : ℕ) → s.loop.handlers d ≡ true → s.loop.registered d ≡ true
  pub gone : (i : ℕ) → i < n → Gone (s.phases i) s.loop
  pub read : IsRead s.loop

Gone-fewer :
    (p : Phase) (l l' : Loop)
    → ((d : ℕ) → l'.registered d ≡ true → l.registered d ≡ true)
    → Gone p l
    → Gone p l'
Gone-fewer (handling e false true) l l' fewer g = elim (Bool-cases (l'.registered (ident e))) [
  | inl again ↦ absurd (apart (sym g ∙ fewer (ident e) again))
  | inr gone ↦ gone
]
  where
    apart : ◌≡◌ {A = Bool} false true → ⊥
    apart h = cc
Gone-fewer _ l l' fewer g = tt

module _ (n oi : ℕ) (s : System) (v : IsKept n oi s) (i : ℕ) (lt : i < n) where
  put-IsKept : (r : Phase × Loop) → Keeps oi (s.phases i) s.loop r → IsKept n oi (put s i r)
  put-IsKept r k = record {
    kept = λ d ne h.
        let before : 1 ≤ pending d s.loop + count (held d) n s.phases = v.kept d ne (k.known d h) in
        let here_ : 1 ≤ pending d s.loop + held d (s.phases i) → 1 ≤ pending d r.1 + held d r.0 =
          k.kept d ne h in
        elim (dec_lt 0 (pending d s.loop + held d (s.phases i))) [
          | yes own ↦ omega (
            arith,
            here_ own,
            count-update (held d) n s.phases i r.0 lt,
            count-update (held d) n s.phases i idle lt,
          )
          | no none_own ↦ omega (arith, none_own, before, count-update (held d) n s.phases i r.0 lt)
        ];
    handled = λ d h. k.handled d (v.handled d) h;
    gone = λ j lt'. elim (Bool-cases (i == j)) [
      | inl same ↦ rw same k.gone
      | inr other ↦ rw other (Gone-fewer (s.phases j) s.loop r.1 k.known (v.gone j lt'))
    ];
    read = k.read;
  }

  phase-IsKept :
      (p : Phase) (r : Phase × Loop)
      → s.phases i ≡ p
      → Keeps oi p s.loop r
      → IsKept n oi (put s i r)
  phase-IsKept p r e k = put-IsKept r (subst (λ q. Keeps oi q s.loop r) (sym e) k)

  -- While a thread polls, the backlog is read up.
  read_up : IsValid n s → s.phases i ≡ polling → s.loop.num ≡ s.loop.off
  read_up u e = v.read (shut s.loop (closed n s u i lt e))
    where
      shut : (l : Loop) → free l ≡ 0 → l.pollable ≡ false
      shut l h = ground (arith, h)

  -- What is known of the thread's phase.
  phase-Gone : (p : Phase) → s.phases i ≡ p → Gone p s.loop
  phase-Gone p e = subst (λ q. Gone q s.loop) e (v.gone i lt)

  -- A step that only ends what the thread does.
  ended-IsKept :
      (p q : Phase)
      → s.phases i ≡ p
      → ((d : ℕ) → held d p ≡ 0)
      → Gone q s.loop
      → IsKept n oi (put s i (q, s.loop))
  ended-IsKept p q e none_held gone =
      phase-IsKept p (q, s.loop) e
        (same-Keeps oi 0 s.loop v.read p q (λ d h. omega (arith, none_held d)) gone)

module _ (n oi : ℕ) (s : System) (v : IsKept n oi s) (d : ℕ) where
  -- One that holds an event of d is among those counted.
  held_le : (i : ℕ) → i < n → held d (s.phases i) ≤ count (held d) n s.phases
  held_le i lt = omega (arith, count-update (held d) n s.phases i idle lt)

  Gone-added :
      (p : Phase)
      → Gone p s.loop
      → (s.loop.registered d ≡ false → held d p ≡ 0)
      → Gone p (add_handler d s.loop)
  unfolding add_handler
  Gone-added (handling e false true) g none_held = ground (arith, g, none_held)
  Gone-added _ g none_held = tt

  adds-IsKept :
      (s.loop.registered d ≡ false → pending d s.loop + count (held d) n s.phases ≡ 0)
      → IsKept n oi (record s { loop = add_handler d s.loop })
  unfolding add_handler pending
  adds-IsKept none_left = record {
    kept = λ j ne h. ground (arith, v.kept j ne, h);
    handled = λ j h. ground (arith, v.handled j, h);
    gone = λ i lt.
        Gone-added (s.phases i) (v.gone i lt) (λ h. omega (arith, held_le i lt, none_left h));
    read = v.read;
  }

  removes-IsKept : IsKept n oi (record s { loop = remove_handler d s.loop })
  unfolding remove_handler pending
  removes-IsKept = record {
    kept = λ j ne h. ground (arith, v.kept j ne, h);
    handled = λ j h. ground (arith, v.handled j, h);
    gone = λ i lt.
        Gone-fewer (s.phases i) s.loop (remove_handler d s.loop) (λ j h. ground (arith, h))
          (v.gone i lt);
    read = v.read;
  }

-- Every step loses no event.
Step-IsKept :
    (n oi : ℕ) {s t : System} (st : Step n oi s t)
    → IsFresh st
    → IsValid n s
    → IsKept n oi s
    → IsKept n oi t
unfolding pending submit end
Step-IsKept n oi (takes s i reply ready lt e) fresh u v =
    phase-IsKept n oi s v i lt idle _ e (take_work-Keeps oi reply ready s.loop u.range v.read)
Step-IsKept n oi (takes_once s i reply ready lt e) fresh u v =
    phase-IsKept n oi s v i lt idle _ e (run_once-Keeps oi reply ready s.loop u.range v.read)
Step-IsKept n oi (wakes s i lt e) fresh u v = ended-IsKept n oi s v i lt _ idle e (λ d. refl) tt
Step-IsKept n oi (polls s i reply ready es lt e some_es armed) fresh u v =
    phase-IsKept n oi s v i lt polling _ e
      (after_poll-Keeps oi reply ready es s.loop some_es armed (read_up n oi s v i lt u e))
Step-IsKept n oi (polls_nothing s i lt e) fresh u v =
    phase-IsKept n oi s v i lt polling _ e (poll_again-Keeps oi s.loop (read_up n oi s v i lt u e))
Step-IsKept n oi (polls_nothing_once s i lt e) fresh u v =
    phase-IsKept n oi s v i lt polling _ e
      (poll_returns-Keeps oi s.loop (read_up n oi s v i lt u e))
Step-IsKept n oi (poll_fails s i lt e) fresh u v = ended-IsKept n oi s v i lt _ _ e (λ d. refl) tt
Step-IsKept n oi (asks_more s i e re rm lt at) fresh u v =
    phase-IsKept n oi s v i lt _ _ at
      (more-Keeps oi e s.loop v.read re rm (phase-Gone n oi s v i lt _ at))
Step-IsKept n oi (asks_next s i e re rm lt at) fresh u v =
    phase-IsKept n oi s v i lt _ _ at
      (next-Keeps oi e s.loop v.read re rm (phase-Gone n oi s v i lt _ at))
Step-IsKept n oi (asks_remove s i e re rm lt at) fresh u v =
    phase-IsKept n oi s v i lt _ _ at
      (remove_event-Keeps oi e s.loop v.read re rm (phase-Gone n oi s v i lt _ at))
Step-IsKept n oi (returns s i e re rm cont lt at) fresh u v =
    phase-IsKept n oi s v i lt _ _ at
      (finish-Keeps oi e s.loop v.read re rm cont (phase-Gone n oi s v i lt _ at))
Step-IsKept n oi (arms s i e lt at) fresh u v =
    phase-IsKept n oi s v i lt _ _ at (arm-Keeps oi e s.loop v.read)
Step-IsKept n oi (writes s i e o lt at same) fresh u v =
    let w : IsKept n oi (put s i (idle, s.loop)) =
      ended-IsKept n oi s v i lt _ idle at (λ d. refl) tt in
    record {
      kept = w.kept;
      handled = w.handled;
      gone = λ j l.
          Gone-fewer (update s.phases i idle j) s.loop (record s.loop { out = o }) (λ d h. h)
            (w.gone j l);
      read = w.read;
    }
Step-IsKept n oi (runs s i t last lt at) fresh u v =
    ended-IsKept n oi s v i lt _ idle at (λ d. refl) tt
Step-IsKept n oi (submits s t) fresh u v = record {
  kept = v.kept;
  handled = v.handled;
  gone = λ j l. Gone-fewer (s.phases j) s.loop (submit t s.loop) (λ d h. h) (v.gone j l);
  read = v.read;
}
Step-IsKept n oi (adds s d) none_left u v = adds-IsKept n oi s v d none_left
Step-IsKept n oi (removes s d) fresh u v = removes-IsKept n oi s v d
Step-IsKept n oi (ends s) fresh u v = record {
  kept = v.kept;
  handled = v.handled;
  gone = λ j l. Gone-fewer (s.phases j) s.loop (end s.loop) (λ d h. h) (v.gone j l);
  read = v.read;
}

start-IsKept : (n oi : ℕ) (armed : ℕ → ℕ) → IsKept n oi (start armed)
unfolding pending
start-IsKept n oi armed = record {
  kept = λ d ne h. ground (arith, h);
  handled = λ d h. h;
  gone = λ i lt. tt;
  read = λ h. refl;
}

Reach-IsKept :
    (n oi : ℕ) (armed : ℕ → ℕ) {s : System}
    → ((d : ℕ) → armed d ≤ 1)
    → Reach n oi (start armed) s
    → IsKept n oi s
Reach-IsKept n oi armed few here = start-IsKept n oi armed
Reach-IsKept n oi armed few (after r st fresh) =
    Step-IsKept n oi st fresh (Reach-IsValid n oi armed few r) (Reach-IsKept n oi armed few r)

-- However the threads interleave, where at first each descriptor is armed once at most and a
-- descriptor that is registered anew has no event left from before: of each descriptor that has a
-- handler, other than out's own, exactly one event is armed, queued, or with a thread that may
-- pass it on. None is lost and none doubled.
pub one_event :
    (n oi : ℕ) (armed : ℕ → ℕ) (s : System) (d : ℕ)
    → ((d' : ℕ) → armed d' ≤ 1)
    → Reach n oi (start armed) s
    → d ≢ oi
    → s.loop.handlers d ≡ true
    → pending d s.loop + count (held d) n s.phases ≡ 1
one_event n oi armed s d few r ne h =
    let v : IsKept n oi s = Reach-IsKept n oi armed few r in
    let u : IsValid n s = Reach-IsValid n oi armed few r in
    omega (arith, v.kept d ne (v.handled d h), u.tokens d)
