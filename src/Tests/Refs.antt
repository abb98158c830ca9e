-- ===== src/Tests/Refs.antt =====
-- Tests and examples of the refs of mp/sync.hmpl.
use mpio.Prelude.{ℕ, ◌≡◌, ◌≢◌, refl, ◌==◌, if◌then◌else◌, Option, none, some, true, false, arith}
use mathlib.Core.Logic.{◌↔◌}
use mpio.Sync.{Sync, init, create, move, get, creates, moves, Reach, begins, after}
use mpio.Sync.Exclusive.{get-Apart, create-Waits}

-- The ref 1 locks the object 4 and is moved to the ref 2.
held : Option Sync
held = create 1 4 init

abbrev locked : Sync
locked = record {
  refs = λ k. if 1 == k then some 4 else none;
  locked = λ k. if 4 == k then true else false;
}

held_lem : create 1 4 init ≡ some locked
unfolding create
held_lem = refl

moved : Reach (move 1 2 locked)
moved = after (after begins (creates 1 4 refl held_lem)) (moves 1 2 refl (omega arith) refl)

get_lem : get 2 (move 1 2 locked) ≡ some 4
unfolding get move
get_lem = refl

get-Apart_example : get 1 (move 1 2 locked) ≢ some 4
get-Apart_example = get-Apart (move 1 2 locked) moved 2 1 4 (omega arith) get_lem

create-Waits_example :
    (create 3 4 (move 1 2 locked) ≡ none) ↔ ((k : ℕ) × (get k (move 1 2 locked) ≡ some 4))
create-Waits_example = create-Waits (move 1 2 locked) moved 3 4
