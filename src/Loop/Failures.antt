-- ===== src/Loop/Failures.antt =====
-- What mpsrc/wavy_loop.cc does after a poll that fails, and with the events of a handler that is removed.
use mpio.Prelude.{
  ℕ, ◌≤◌, ◌<◌, ◌≡◌, ◌≢◌, refl, sym, ap, ◌∙◌, true, false, Bool-cases, inl, inr, ◌==◌, ==→eq, arith,
}
use mpio.Family.{update, count-update}
use mpio.Loop.{
  Phase, idle, polling, poll_failed, Loop, System, start, Step, takes, takes_once, wakes, polls,
  polls_nothing, polls_nothing_once, poll_fails, asks_more, asks_next, asks_remove, returns, arms,
  writes, runs, submits, adds, removes, ends, add_handler, remove_handler, Reach, here, after,
  occurs, unread, pending,
}
use mpio.Loop.Moves
use mpio.Loop.Valid.{IsValid, Step-IsValid, Reach-IsValid, two-count}

module _ (s : System) (i : ℕ) (failed : s.phases i ≡ poll_failed) where
  -- A step of a thread that is not the one that failed.
  of_another :
      (j : ℕ) (p q : Phase) → s.phases j ≡ p → p ≢ poll_failed → update s.phases j q i ≡ poll_failed
  of_another j p q at ne = elim (Bool-cases (j == i)) [
    | inl same ↦ absurd (ne (sym at ∙ ap s.phases (==→eq j i same) ∙ failed))
    | inr other ↦ rw other failed
  ]

Step-failed :
    (n oi i : ℕ) {s t : System}
    → Step n oi s t
    → s.phases i ≡ poll_failed
    → t.phases i ≡ poll_failed
Step-failed n oi i (takes s j reply ready lt e) f = of_another s i f j _ _ e (λ z. cc)
Step-failed n oi i (takes_once s j reply ready lt e) f = of_another s i f j _ _ e (λ z. cc)
Step-failed n oi i (wakes s j lt e) f = of_another s i f j _ _ e (λ z. cc)
Step-failed n oi i (polls s j reply ready es lt e some_es armed) f =
    of_another s i f j _ _ e (λ z. cc)
Step-failed n oi i (polls_nothing s j lt e) f = of_another s i f j _ _ e (λ z. cc)
Step-failed n oi i (polls_nothing_once s j lt e) f = of_another s i f j _ _ e (λ z. cc)
Step-failed n oi i (poll_fails s j lt e) f = of_another s i f j _ _ e (λ z. cc)
Step-failed n oi i (asks_more s j e re rm lt at) f = of_another s i f j _ _ at (λ z. cc)
Step-failed n oi i (asks_next s j e re rm lt at) f = of_another s i f j _ _ at (λ z. cc)
Step-failed n oi i (asks_remove s j e re rm lt at) f = of_another s i f j _ _ at (λ z. cc)
Step-failed n oi i (returns s j e re rm cont lt at) f = of_another s i f j _ _ at (λ z. cc)
Step-failed n oi i (arms s j e lt at) f = of_another s i f j _ _ at (λ z. cc)
Step-failed n oi i (writes s j e o lt at same) f = of_another s i f j _ _ at (λ z. cc)
Step-failed n oi i (runs s j t last lt at) f = of_another s i f j _ _ at (λ z. cc)
Step-failed n oi i (submits s t) f = f
Step-failed n oi i (adds s d) f = f
Step-failed n oi i (removes s d) f = f
Step-failed n oi i (ends s) f = f

record Failed (n i : ℕ) (s : System) : Type 0 where
  valid : IsValid n s
  failed : s.phases i ≡ poll_failed

Reach-Failed : (n oi i : ℕ) {s t : System} → Failed n i s → Reach n oi s t → Failed n i t
Reach-Failed n oi i f here = f
Reach-Failed n oi i f (after r st fresh) =
    let g : Failed n i _ = Reach-Failed n oi i f r in
    record { valid = Step-IsValid n oi st fresh g.valid; failed = Step-failed n oi i st g.failed }

-- However the threads interleave, where at first each descriptor is armed once at most and a
-- descriptor that is registered anew has no event left from before: after the wait of a thread
-- has failed, `m_pollable` is never set and no thread polls, then or later.
pub poll_failed-lasts :
    (n oi : ℕ) (armed : ℕ → ℕ) (s t : System) (i : ℕ)
    → ((d : ℕ) → armed d ≤ 1)
    → Reach n oi (start armed) s
    → i < n
    → s.phases i ≡ poll_failed
    → Reach n oi s t
    → (t.loop.pollable ≡ false) × ((j : ℕ) → j < n → t.phases j ≢ polling)
poll_failed-lasts n oi armed s t i few r lt failed later = (
  elim (Bool-cases t.loop.pollable) [
    | inl open_ ↦ absurd (
        omega (
          arith,
          f.valid.poller,
          ap mpio.Loop.Moves.polls f.failed,
          opened t.loop open_,
          count-update mpio.Loop.Moves.polls n t.phases i idle lt,
        ))
    | inr closed ↦ closed
  ],
  λ j lt' at. elim (Bool-cases (i == j)) [
    | inl same ↦ absurd (apart (sym f.failed ∙ ap t.phases (==→eq i j same) ∙ at))
    | inr other ↦ omega (
      arith,
      f.valid.poller,
      two-count mpio.Loop.Moves.polls n t.phases refl i j lt lt' (ground arith),
      ap mpio.Loop.Moves.polls f.failed,
      ap mpio.Loop.Moves.polls at,
    )
  ],
)
  where
    f : Failed n i t
    f =
        Reach-Failed n oi i (record { valid = Reach-IsValid n oi armed few r; failed = failed })
          later

    opened : (l : Loop) → l.pollable ≡ true → mpio.Loop.Moves.free l ≡ 1
    opened l h = simp h refl

    apart : poll_failed ≢ polling
    apart e = cc

-- Where an event of a descriptor is in the backlog, and its handler is removed and another is added for the
-- same descriptor, two events of it are on the way: the old one, and the one that is armed.
pub add_handler-doubles :
    (l : Loop) (d : ℕ)
    → 0 < occurs d (unread l)
    → 2 ≤ pending d (add_handler d (remove_handler d l))
unfolding pending add_handler remove_handler
add_handler-doubles l d h = ground (arith, h)
