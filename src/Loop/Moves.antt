-- ===== src/Loop/Moves.antt =====
-- What each section of mpsrc/wavy_loop.cc under the mutex does with the indices of the backlog, with
-- `m_pollable` and with the events.
use mpio.Prelude.{
  ℕ, ◌+◌, ◌≤◌, ◌≡◌, refl, List, [], ◌∷◌, ◌++◌, Bool, true, false, length, if◌then◌else◌, Bool-cases,
  inl, inr, arith,
}
use mpio.Out.{Event}
use mpio.Loop.{
  Phase, polling, poll_failed, overrun, idle, handling, arming, Loop, reactivate, more, next,
  remove_event, finish, poll_again, poll_returns, occurs, pending, held,
}

abbrev pub polls : Phase → ℕ
polls polling = 1
polls poll_failed = 1
polls _ = 0

abbrev pub overruns : Phase → ℕ
overruns overrun = 1
overruns _ = 0

abbrev pub free : Loop → ℕ
free l = if l.pollable then 1 else 0

abbrev pub InRange : Loop → Type 0
InRange l = (l.off ≤ l.num) × (l.num ≤ length l.backlog)

-- From a thread in phase `p`: the indices stay in range, the right to poll is neither lost nor doubled,
-- the backlog is not overrun, and no event is doubled.
pub record Moves (p : Phase) (l : Loop) (r : Phase × Loop) : Type 0 where
  pub range : InRange r.1
  pub poller : polls r.0 + free r.1 ≡ polls p + free l
  pub inside : overruns r.0 ≡ 0
  pub tokens : (d : ℕ) → pending d r.1 + held d r.0 ≤ pending d l + held d p

pub occurs-append : (d : ℕ) (es fs : List Event) → occurs d (es ++ fs) ≡ occurs d es + occurs d fs
occurs-append d [] fs = omega arith
occurs-append d (e ∷ es) fs = omega (arith, occurs-append d es fs)

-- What a handler asks for moves its event at most once.
pub more-Moves :
    (e : Event) (re rm : Bool) (l : Loop) → InRange l → Moves (handling e re rm) l (more e re rm l)
unfolding more pending
more-Moves e true rm l range = record {
  range = range;
  poller = refl;
  inside = refl;
  tokens = λ d. omega arith;
}
more-Moves e false rm l range = record {
  range = range;
  poller = refl;
  inside = refl;
  tokens = λ d. omega (arith, occurs-append d l.more_queue (e ∷ []));
}

pub next-Moves :
    (e : Event) (re rm : Bool) (l : Loop) → InRange l → Moves (handling e re rm) l (next e re rm l)
unfolding next pending
next-Moves e true rm l range = record {
  range = range;
  poller = refl;
  inside = refl;
  tokens = λ d. omega arith;
}
next-Moves e false rm l range = record {
  range = range;
  poller = refl;
  inside = refl;
  tokens = λ d. ground arith;
}

pub remove_event-Moves :
    (e : Event) (re rm : Bool) (l : Loop)
    → InRange l
    → Moves (handling e re rm) l (remove_event e re rm l)
unfolding remove_event pending
remove_event-Moves e true true l range = record {
  range = range;
  poller = refl;
  inside = refl;
  tokens = λ d. omega arith;
}
remove_event-Moves e false true l range = record {
  range = range;
  poller = refl;
  inside = refl;
  tokens = λ d. omega arith;
}
remove_event-Moves e true false l range = record {
  range = range;
  poller = refl;
  inside = refl;
  tokens = λ d. ground arith;
}
remove_event-Moves e false false l range = record {
  range = range;
  poller = refl;
  inside = refl;
  tokens = λ d. ground arith;
}

pub finish-Moves :
    (e : Event) (re rm cont : Bool) (l : Loop)
    → InRange l
    → Moves (handling e re rm) l (finish e re rm cont l)
unfolding finish pending
finish-Moves e true rm cont l range = record {
  range = range;
  poller = refl;
  inside = refl;
  tokens = λ d. omega arith;
}
finish-Moves e false true cont l range = record {
  range = range;
  poller = refl;
  inside = refl;
  tokens = λ d. omega arith;
}
finish-Moves e false false false l range = record {
  range = range;
  poller = refl;
  inside = refl;
  tokens = λ d. ground arith;
}
finish-Moves e false false true l range = record {
  range = range;
  poller = refl;
  inside = refl;
  tokens = λ d. ground arith;
}

pub arm-Moves : (e : Event) (l : Loop) → InRange l → Moves (arming e) l (idle, reactivate e l)
unfolding pending
arm-Moves e l range = record {
  range = range;
  poller = refl;
  inside = refl;
  tokens = λ d. ground arith;
}

pub poll_again-Moves : (l : Loop) → InRange l → free l ≡ 0 → Moves polling l (poll_again l)
unfolding poll_again pending
poll_again-Moves l range closed = elim (Bool-cases l.end_flag) [
  | inl over ↦ simp over (record {
    range = range;
    poller = omega (arith, closed);
    inside = refl;
    tokens = λ d. omega arith;
  })
  | inr on ↦
      simp on (record { range = range; poller = refl; inside = refl; tokens = λ d. omega arith })
]

pub poll_returns-Moves : (l : Loop) → InRange l → free l ≡ 0 → Moves polling l (poll_returns l)
unfolding poll_returns pending
poll_returns-Moves l range closed = record {
  range = range;
  poller = omega (arith, closed);
  inside = refl;
  tokens = λ d. omega arith;
}
