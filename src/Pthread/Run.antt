-- ===== src/Pthread/Run.antt =====
-- `pthread_thread::run` and the trampoline of mp/pthread.h: the function object that a thread is given.
use mpio.Prelude.{
  ℕ, ◌+◌, ◌≡◌, refl, Option, none, some, Bool, true, false, ◌==◌, if◌then◌else◌, arith,
}
use mpio.Family.{update}
use mpio.Pthread.{Pthread, Created, created, refused, Result, create, create_result}

-- Which function objects are there; `next` is the one that `new` gives.
pub record Functions : Type 0 where
  pub next : ℕ
  pub live : ℕ → Bool

abbrev pub delete : ℕ → Functions → Functions
delete f fs = record fs { live = update fs.live f false }

-- The object is released where the thread has it, and deleted where there is no thread.
abbrev pub released : {W : Type 0} → ℕ → Functions → Result ℕ × W → Result ℕ × (Functions × W)
released f fs (Result.gives t, w) = (Result.gives t, (fs, w))
released f fs (Result.throws c, w) = (Result.throws c, (delete f fs, w))

unfoldable pub run : {W : Type 0} → Pthread W → Functions → W → Result ℕ × (Functions × W)
run pt fs w =
    released fs.next (record { next = fs.next + 1; live = update fs.live fs.next true })
      (create pt fs.next w)

-- In the new thread: the function is called and its object deleted, also where it throws; true where it
-- returned. To call or delete an object that is not there is `none`.
unfoldable pub trampoline :
    {W : Type 0} → (W → ℕ → Bool × W) → ℕ → Functions → W → Option (Bool × (Functions × W))
trampoline call f fs w =
    if fs.live f then (let r = call w f in some (r.0, (delete f fs, r.1))) else none

-- The objects are those that were there before.
abbrev pub SameLive : Functions → Functions → Type 0
SameLive fs fs' = (d : ℕ) → fs'.live d ≡ fs.live d

-- A thread that runs leaves the objects of before, whether its function returns or throws; without a
-- thread they are those of before at once.
abbrev pub Given :
    {W : Type 0} → (W → ℕ → Bool × W) → Functions → Result ℕ × (Functions × W) → Type 0
Given call fs (Result.throws c, (fs', w')) = SameLive fs fs'
Given {W} call fs (Result.gives t, (fs', w')) =
    (w : W)
    → (r : Bool × (Functions × W)) × (trampoline call fs.next fs' w ≡ some r) × SameLive fs r.1.0

module _ {W : Type 0} (pt : Pthread W) (call : W → ℕ → Bool × W) where
  released-Given :
      (fs : Functions) (r : Created × W)
      → fs.live fs.next ≡ false
      → Given call fs (
          released fs.next
            (record { next = fs.next + 1; live = update fs.live fs.next true })
            (create_result pt r))
  unfolding trampoline
  released-Given fs (refused e, w) new = λ d. ground (arith, new)
  released-Given fs (created t, w) new = λ w'.
      let here : (fs.next == fs.next) ≡ true = ground arith in
      (
        (
          (call w' fs.next).0,
          (
            record {
              next = fs.next + 1;
              live = update (update fs.live fs.next true) fs.next false;
            },
            (call w' fs.next).1,
          ),
        ),
        rw here refl,
        λ d. ground (arith, new),
      )

  -- The function object of a thread is deleted exactly once, whether the thread is made or not, and
  -- whether its function returns or throws.
  pub run-Given : (fs : Functions) (w : W) → fs.live fs.next ≡ false → Given call fs (run pt fs w)
  unfolding run create
  run-Given fs w new = released-Given fs (pt.create w fs.next) new
