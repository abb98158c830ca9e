-- ===== src/Loop/Workers.antt =====
-- The worker threads of loop_impl: mpsrc/wavy_loop.cc. A thread of the list
-- `m_workers` is its number.
use mpio.Prelude.{
  ℕ, zero, suc, List, [], ◌∷◌, ◌++◌, Bool, true, false, not, is_empty, if◌then◌else◌,
}
use mpio.Os.{Errno}
use mpio.Pthread.{Pthread, Code, plus, Result, create, join, detach}
use mpio.Loop.{Loop, end}

-- `throws_running` is std::runtime_error("loop is already running").
pub data Started : Type 0 where
  started throws_running : Started
  throws : Code → Started

-- `e.code == EDEADLK`
abbrev pub is_deadlock : Code → Bool
is_deadlock (plus Errno.edeadlk) = true
is_deadlock _ = false

abbrev pub is_running : List ℕ → Bool
is_running workers = not (is_empty workers)

module _ {W : Type 0} (pt : Pthread W) (this : ℕ) where
  -- The new thread is put at the back, and taken away again where there is none.
  abbrev pub pushed :
      (List ℕ → W → Started × (List ℕ × W)) → List ℕ → Result ℕ × W → Started × (List ℕ × W)
  pushed next workers (Result.gives t, w) = next (workers ++ (t ∷ [])) w
  pushed next workers (Result.throws c, w) = (Started.throws c, (workers, w))

  unfoldable pub add_thread : ℕ → List ℕ → W → Started × (List ℕ × W)
  add_thread zero workers w = (Started.started, (workers, w))
  add_thread (suc num) workers w = pushed (add_thread num) workers (create pt this w)

  unfoldable pub start : ℕ → List ℕ → W → Started × (List ℕ × W)
  start num workers w =
      if is_running workers
      then (Started.throws_running, (workers, w))
      else add_thread num workers w

module _ {W : Type 0} (pt : Pthread W) where
  -- `it->detach()`
  abbrev pub detached : (W → Result Unit × W) → Result Unit × W → Result Unit × W
  detached next (Result.gives u, w) = next w
  detached next (Result.throws c, w) = (Result.throws c, w)

  abbrev pub joined : (W → Result Unit × W) → ℕ → Result Unit × W → Result Unit × W
  joined next t (Result.gives u, w) = next w
  joined next t (Result.throws c, w) =
      if is_deadlock c then detached next (detach pt t w) else (Result.throws c, w)

  unfoldable pub join_each : List ℕ → W → Result Unit × W
  join_each [] w = (Result.gives tt, w)
  join_each (t ∷ ts) w = joined (join_each ts) t (join pt t w)

  -- `m_workers.clear()` where no exception has left the loop
  abbrev pub cleared : List ℕ → Result Unit × W → Result Unit × (List ℕ × W)
  cleared workers (Result.gives u, w) = (Result.gives tt, ([], w))
  cleared workers (Result.throws c, w) = (Result.throws c, (workers, w))

  unfoldable pub join_all : List ℕ → W → Result Unit × (List ℕ × W)
  join_all workers w = cleared workers (join_each workers w)

  -- `detach` keeps the list.
  unfoldable pub detach_all : List ℕ → W → Result Unit × W
  detach_all [] w = (Result.gives tt, w)
  detach_all (t ∷ ts) w = detached (detach_all ts) (detach pt t w)

  -- The destructor ends the loop and joins; the result is what leaves it.
  unfoldable pub destroy : Loop → List ℕ → W → Result Unit × (Loop × (List ℕ × W))
  destroy l workers w = let r = join_all workers w in (r.0, (end l, r.1))

abbrev pub all_joined : {W : Type 0} → Result Unit × (List ℕ × W) → Started × (List ℕ × W)
all_joined (Result.gives u, r) = (Started.started, r)
all_joined (Result.throws c, r) = (Started.throws c, r)

abbrev pub then_join : {W : Type 0} → Pthread W → Started × (List ℕ × W) → Started × (List ℕ × W)
then_join pt (Started.started, (workers, w)) = all_joined (join_all pt workers w)
then_join pt r = r

-- `loop::run`: what starting throws leaves it, and so does what joining throws.
unfoldable pub run : {W : Type 0} → Pthread W → ℕ → ℕ → List ℕ → W → Started × (List ℕ × W)
run pt this num workers w = then_join pt (start pt this num workers w)
