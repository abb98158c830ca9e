-- ===== src/Loop/Kept/Asks.antt =====
-- What a handler asks for in mpsrc/wavy_loop.cc, and what follows it, keeps the events of other
-- descriptors, and its own while that is registered.
use mpio.Prelude.{ℕ, ◌≤◌, ◌≡◌, [], ◌∷◌, Bool, true, false, ◌==◌, arith, if◌then◌else◌}
use mpio.Out.{Event, ident}
use mpio.Loop.{
  Phase, Loop, idle, handling, arming, reactivate, more, next, remove_event, finish, pending, held,
  remove, reset_handler,
}
use mpio.Loop.Moves.{occurs-append}
use mpio.Loop.Kept.{Gone, IsRead, Keeps}

module _ (oi : ℕ) (e : Event) (l : Loop) (read : IsRead l) where
  -- The loop is as it was, and the thread holds no less.
  pub same-Keeps :
      (p q : Phase)
      → ((d : ℕ) → l.registered d ≡ true → held d p ≤ held d q)
      → Gone q l
      → Keeps oi p l (q, l)
  same-Keeps p q more_held gone = record {
    known = λ d h. h;
    handled = λ d f h. f h;
    kept = λ d ne h some. omega (arith, more_held d h, some);
    read = read;
    gone = gone;
  }

  -- The event is armed again; a thread in phase `p` holds no other.
  reactivate-Keeps :
      (p q : Phase)
      → ((d : ℕ) → held d p ≤ (if ident e == d then 1 else 0))
      → Gone q l
      → Gone q (reactivate e l)
      → Keeps oi p l (q, reactivate e l)
  unfolding pending
  reactivate-Keeps p q own gone gone' = record {
    known = λ d h. h;
    handled = λ d f h. f h;
    kept = λ d ne h some. ground (arith, own d, h, some);
    read = read;
    gone = gone';
  }

  -- The event is removed.
  remove-Keeps :
      (p q : Phase)
      → ((d : ℕ) → held d p ≤ (if ident e == d then 1 else 0))
      → Gone q (reset_handler (ident e) (remove e l))
      → Keeps oi p l (q, reset_handler (ident e) (remove e l))
  unfolding pending
  remove-Keeps p q own gone = record {
    known = λ d h. ground (arith, h);
    handled = λ d f h. ground (arith, f, h);
    kept = λ d ne h some. ground (arith, own d, h, some);
    read = read;
    gone = gone;
  }

  pub more-Keeps :
      (re rm : Bool) → Gone (handling e re rm) l → Keeps oi (handling e re rm) l (more e re rm l)
  unfolding more pending
  more-Keeps true rm gone = same-Keeps (handling e true rm) _ (λ d h. omega arith) gone
  more-Keeps false rm gone = record {
    known = λ d h. h;
    handled = λ d f h. f h;
    kept = λ d ne h some. omega (arith, some, occurs-append d l.more_queue (e ∷ []));
    read = read;
    gone = tt;
  }

  pub next-Keeps :
      (re rm : Bool) → Gone (handling e re rm) l → Keeps oi (handling e re rm) l (next e re rm l)
  unfolding next
  next-Keeps true rm gone = same-Keeps (handling e true rm) _ (λ d h. omega arith) gone
  next-Keeps false rm gone =
      reactivate-Keeps (handling e false rm) (handling e true rm) (λ d. omega arith) tt tt

  pub remove_event-Keeps :
      (re rm : Bool)
      → Gone (handling e re rm) l
      → Keeps oi (handling e re rm) l (remove_event e re rm l)
  unfolding remove_event
  remove_event-Keeps re true gone = same-Keeps (handling e re true) _ (λ d h. omega arith) gone
  remove_event-Keeps true false gone = remove-Keeps (handling e true false) _ (λ d. omega arith) tt
  remove_event-Keeps false false gone =
      remove-Keeps (handling e false false) _ (λ d. omega arith) (ground arith)

  pub finish-Keeps :
      (re rm cont : Bool)
      → Gone (handling e re rm) l
      → Keeps oi (handling e re rm) l (finish e re rm cont l)
  unfolding finish
  finish-Keeps true rm cont gone = same-Keeps (handling e true rm) idle (λ d h. omega arith) tt
  finish-Keeps false true cont gone =
      same-Keeps (handling e false true) idle (λ d h. ground (arith, gone, h)) tt
  finish-Keeps false false false gone =
      remove-Keeps (handling e false false) idle (λ d. omega arith) tt
  finish-Keeps false false true gone =
      reactivate-Keeps (handling e false false) idle (λ d. omega arith) tt tt

  pub arm-Keeps : Keeps oi (arming e) l (idle, reactivate e l)
  arm-Keeps = reactivate-Keeps (arming e) idle (λ d. omega arith) tt tt
