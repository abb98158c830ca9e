-- ===== src/Loop/Kept.antt =====
-- That mpsrc/wavy_loop.cc loses no event: what each section under the mutex leaves of the events of a
-- descriptor that is registered.
pub mod Takes
pub mod Rounds
pub mod Asks
pub mod Reached
use mpio.Prelude.{ℕ, ◌+◌, ◌≤◌, ◌≡◌, ◌≢◌, Bool, true, false}
use mpio.Out.{ident}
use mpio.Loop.{Phase, Loop, handling, pending, held}

-- After `event::remove` the descriptor is not registered.
abbrev pub Gone : Phase → Loop → Type 0
Gone (handling e false true) l = l.registered (ident e) ≡ false
Gone _ l = Unit

-- While a thread polls, the backlog is read up.
abbrev pub IsRead : Loop → Type 0
IsRead l = l.pollable ≡ false → l.num ≡ l.off

-- From a thread in phase `p`: nothing is registered anew; a handler that is set is registered; and of a
-- descriptor that stays registered, other than out's, an event is left where one was.
pub record Keeps (oi : ℕ) (p : Phase) (l : Loop) (r : Phase × Loop) : Type 0 where
  pub known : (d : ℕ) → r.1.registered d ≡ true → l.registered d ≡ true
  pub handled :
      (d : ℕ)
      → (l.handlers d ≡ true → l.registered d ≡ true)
      → r.1.handlers d ≡ true
      → r.1.registered d ≡ true
  pub kept :
      (d : ℕ)
      → d ≢ oi
      → r.1.registered d ≡ true
      → 1 ≤ pending d l + held d p
      → 1 ≤ pending d r.1 + held d r.0
  pub read : IsRead r.1
  pub gone : Gone r.0 r.1
