-- ===== src/Loop/Kept/Rounds.antt =====
-- A round of `thread_main` or `run_once` of mpsrc/wavy_loop.cc, and the end of a poll, lose no event.
use mpio.Prelude.{
  ℕ, ◌-◌, ◌≤◌, ◌<◌, ◌≡◌, refl, sym, ap, ◌∙◌, List, [], ◌∷◌, ◌++◌, true, length, take, drop, ◌==◌,
  if◌then◌else◌, Bool-cases, inl, inr, arith, append-nil, length-append,
}
use mpio.Os.{Reply}
use mpio.Xfer.Items.{take-append}
use mpio.Out.{Event, ident}
use mpio.Loop.{
  polling, idle, Loop, process, from_backlog, take_more, take_work, once_more, run_once, after_poll,
  poll_again, poll_returns, occurs, disarm, unread, pending,
}
use mpio.Loop.Moves.{InRange}
use mpio.Loop.Kept.{IsRead, Keeps}
use mpio.Loop.Kept.Takes.{
  Passes, Keeps-Passes, process-Passes, from_backlog-Passes, take_queued-Passes, once_queued-Passes,
}

module _ (oi : ℕ) (reply : Reply) (ready : List Event) where
  take_more-Passes :
      (q : List Event) (l : Loop)
      → l.more_queue ≡ q
      → InRange l
      → IsRead l
      → Passes oi (λ d. 0) l (take_more oi reply ready q l)
  unfolding take_more pending
  take_more-Passes [] l same range read = take_queued-Passes oi reply ready l range read
  take_more-Passes (e ∷ es) l same range read =
      let t : Passes oi (λ d. if ident e == d then 1 else 0) (record l { more_queue = es })
          (process oi reply ready e (record l { more_queue = es })) =
        process-Passes oi reply ready e (record l { more_queue = es }) read in
      record {
        registered = t.registered;
        handlers = t.handlers;
        tokens = λ d ne. omega (arith, t.tokens d ne, ap (occurs d) same);
        read = t.read;
        gone = t.gone;
      }

  once_more-Passes :
      (q : List Event) (l : Loop)
      → l.more_queue ≡ q
      → InRange l
      → IsRead l
      → Passes oi (λ d. 0) l (once_more oi reply ready q l)
  unfolding once_more take_more
  once_more-Passes [] l same range read = once_queued-Passes oi reply ready l range read
  once_more-Passes (e ∷ es) l same range read = take_more-Passes (e ∷ es) l same range read

  pub take_work-Keeps :
      (l : Loop) → InRange l → IsRead l → Keeps oi idle l (take_work oi reply ready l)
  unfolding take_work pending
  take_work-Keeps l range read = elim (Bool-cases l.end_flag) [
    | inl over ↦ simp over (record {
      known = λ d h. h;
      handled = λ d f h. f h;
      kept = λ d ne h some. some;
      read = read;
      gone = tt;
    })
    | inr on ↦ simp on (
        Keeps-Passes oi idle l (take_more oi reply ready l.more_queue l) (λ d. refl)
          (take_more-Passes l.more_queue l refl range read))
  ]

  pub run_once-Keeps :
      (l : Loop) → InRange l → IsRead l → Keeps oi idle l (run_once oi reply ready l)
  unfolding run_once pending
  run_once-Keeps l range read = elim (Bool-cases l.end_flag) [
    | inl over ↦ simp over (record {
      known = λ d h. h;
      handled = λ d f h. f h;
      kept = λ d ne h some. some;
      read = read;
      gone = tt;
    })
    | inr on ↦ simp on (
        Keeps-Passes oi idle l (once_more oi reply ready l.more_queue l) (λ d. refl)
          (once_more-Passes l.more_queue l refl range read))
  ]

  -- The events that a poll delivers, where only armed ones are.
  pub after_poll-Keeps :
      (es : List Event) (l : Loop)
      → 0 < length es
      → ((d : ℕ) → occurs d es ≤ l.armed d)
      → l.num ≡ l.off
      → Keeps oi polling l (after_poll oi reply ready es (disarm es l))
  unfolding after_poll pending
  after_poll-Keeps es l some_es armed up = record {
    known = λ d h. ap (λ f. f d) (sym t.registered) ∙ h;
    handled = λ d f h. ap (λ g. g d) t.registered ∙ f (ap (λ g. g d) (sym t.handlers) ∙ h);
    kept = λ d ne h some.
        omega (arith, some, t.tokens d ne, armed d, ap (occurs d) whole, none_left d);
    read = t.read;
    gone = t.gone;
  }
    where
      filled : Loop
      filled = record (disarm es l) {
        off = 0;
        num = length es;
        pollable = true;
        backlog = es ++ drop (length es) l.backlog;
      }

      t : Passes oi (λ d. 0) filled (from_backlog oi reply ready filled)
      t =
          from_backlog-Passes oi reply ready filled
            (omega arith, omega (arith, length-append es (drop (length es) l.backlog))) some_es refl

      whole : unread filled ≡ es
      whole =
          take-append es (drop (length es) l.backlog) 0 (length es - 0) (omega arith)
          ∙ append-nil es

      none_left : (d : ℕ) → occurs d (unread l) ≡ 0
      none_left d =
          let zero_left : l.num - l.off ≡ 0 = omega (arith, up) in
          ap (λ k. occurs d (take k (drop l.off l.backlog))) zero_left

pub poll_again-Keeps : (oi : ℕ) (l : Loop) → l.num ≡ l.off → Keeps oi polling l (poll_again l)
unfolding poll_again pending
poll_again-Keeps oi l up = elim (Bool-cases l.end_flag) [
  | inl over ↦ simp over (record {
    known = λ d h. h;
    handled = λ d f h. f h;
    kept = λ d ne h some. some;
    read = λ h. up;
    gone = tt;
  })
  | inr on ↦ simp on (record {
    known = λ d h. h;
    handled = λ d f h. f h;
    kept = λ d ne h some. some;
    read = λ h. up;
    gone = tt;
  })
]

pub poll_returns-Keeps : (oi : ℕ) (l : Loop) → l.num ≡ l.off → Keeps oi polling l (poll_returns l)
unfolding poll_returns pending
poll_returns-Keeps oi l up = record {
  known = λ d h. h;
  handled = λ d f h. f h;
  kept = λ d ne h some. some;
  read = λ h. up;
  gone = tt;
}
