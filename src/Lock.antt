-- ===== src/Lock.antt =====
-- The classes pthread_scoped_lock, pthread_scoped_rdlock and pthread_scoped_wrlock of mp/pthread.h, which
-- differ in the call that locks only. A lock is a number, and `Held` counts how often this thread has
-- each. `ok` says whether the call that locks returns or throws.
pub mod Balance
use mpio.Prelude.{
  ℕ, ◌+◌, ◌-◌, List, [], ◌∷◌, Option, none, some, ◌>>=◌, Bool, true, false, ◌==◌, if◌then◌else◌,
}
use mpio.Family.{update}

abbrev pub Held : Type 0
Held = ℕ → ℕ

-- `m_mutex`, where NULL is none
abbrev pub Scoped : Type 0
Scoped = Option ℕ

-- To unlock what the thread has not locked is an error.
abbrev pub unlock_mutex : ℕ → Held → Option Held
unlock_mutex m h = if h m == 0 then none else some (update h m (h m - 1))

-- The lock call, after which `m_mutex` is set.
abbrev pub lock_mutex : ℕ → Bool → Held → Scoped × Held
lock_mutex m true h = (some m, update h m (h m + 1))
lock_mutex m false h = (none, h)

-- The constructor; where the call throws, there is no object to destroy, nor a lock.
unfoldable pub create : ℕ → Bool → Held → Scoped × Held
create m ok h = lock_mutex m ok h

unfoldable pub unlock : Scoped → Held → Option (Scoped × Held)
unlock none h = some (none, h)
unlock (some m) h = unlock_mutex m h >>= λ h'. some (none, h')

unfoldable pub relock : Scoped → ℕ → Bool → Held → Option (Scoped × Held)
relock s m ok h = unlock s h >>= λ (s', h'). some (lock_mutex m ok h')

unfoldable pub owns : Scoped → Bool
owns none = false
owns (some m) = true

unfoldable pub destroy : Scoped → Held → Option Held
destroy none h = some h
destroy (some m) h = unlock_mutex m h

-- What may be done with a scoped lock between its constructor and its destructor.
pub data Use : Type 0 where
  unlocks : Use
  relocks : ℕ → Bool → Use

unfoldable pub run : List Use → Scoped → Held → Option (Scoped × Held)
run [] s h = some (s, h)
run (unlocks ∷ us) s h = unlock s h >>= λ (s', h'). run us s' h'
run (relocks m ok ∷ us) s h = relock s m ok h >>= λ (s', h'). run us s' h'
