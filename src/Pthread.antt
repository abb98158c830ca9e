-- ===== src/Pthread.antt =====
-- The wrappers of mp/pthread.h around threads, mutexes, read-write locks and conditions: which error they
-- return and which they throw. The calls of the thread library are a record over the world; a lock, a
-- condition and a thread is a number.
pub mod Errors
pub mod Run
use mpio.Prelude.{ℕ, Bool, true, false, Option, none, some, if◌then◌else◌}
use mpio.Os.{Errno}

pub data Call : Type 0 where
  thread_detach thread_join : (thread : ℕ) → Call
  mutex_lock mutex_trylock mutex_unlock : (mutex : ℕ) → Call
  rwlock_rdlock rwlock_tryrdlock rwlock_wrlock rwlock_trywrlock rwlock_unlock : (lock : ℕ) → Call
  cond_signal cond_broadcast : (cond : ℕ) → Call
  cond_wait cond_timedwait : (cond mutex : ℕ) → Call

-- A thread, or an error.
pub data Created : Type 0 where
  created : ℕ → Created
  refused : Errno → Created

-- Each call returns an error, or 0, which is none.
pub record Pthread (W : Type 0) : Type 0 where
  pub create : W → (user : ℕ) → Created × W
  pub call : W → Call → Option Errno × W

-- `pthread_error::code`: an error, or an error with its sign changed.
pub data Code : Type 0 where
  plus minus : Errno → Code

-- What a wrapper does: it returns, or throws pthread_error.
pub data Result (A : Type 0) : Type 0 where
  gives : A → Result A
  throws : Code → Result A

abbrev pub check : {W : Type 0} → (Errno → Code) → Option Errno × W → Result Unit × W
check code (none, w) = (Result.gives tt, w)
check code (some e, w) = (Result.throws (code e), w)

abbrev pub is_busy : Errno → Bool
is_busy Errno.ebusy = true
is_busy _ = false

abbrev pub is_timeout : Errno → Bool
is_timeout Errno.etimedout = true
is_timeout _ = false

-- `if(err == EBUSY) { return false; }`, or ETIMEDOUT
abbrev pub check_try : {W : Type 0} → (Errno → Bool) → Option Errno × W → Result Bool × W
check_try answers (none, w) = (Result.gives true, w)
check_try answers (some e, w) =
    (if answers e then Result.gives false else Result.throws (minus e), w)

module _ {W : Type 0} (pt : Pthread W) where
  abbrev pub create_result : Created × W → Result ℕ × W
  create_result (created t, w) = (Result.gives t, w)
  create_result (refused e, w) = (Result.throws (plus e), w)

  unfoldable pub create : ℕ → W → Result ℕ × W
  create user w = create_result (pt.create w user)

  unfoldable pub detach : ℕ → W → Result Unit × W
  detach thread w = check plus (pt.call w (Call.thread_detach thread))

  unfoldable pub join : ℕ → W → Result Unit × W
  join thread w = check plus (pt.call w (Call.thread_join thread))

  unfoldable pub lock : ℕ → W → Result Unit × W
  lock mutex w = check minus (pt.call w (Call.mutex_lock mutex))

  unfoldable pub trylock : ℕ → W → Result Bool × W
  trylock mutex w = check_try is_busy (pt.call w (Call.mutex_trylock mutex))

  unfoldable pub unlock : ℕ → W → Result Unit × W
  unlock mutex w = check minus (pt.call w (Call.mutex_unlock mutex))

  unfoldable pub rdlock : ℕ → W → Result Unit × W
  rdlock mutex w = check minus (pt.call w (Call.rwlock_rdlock mutex))

  unfoldable pub tryrdlock : ℕ → W → Result Bool × W
  tryrdlock mutex w = check_try is_busy (pt.call w (Call.rwlock_tryrdlock mutex))

  unfoldable pub wrlock : ℕ → W → Result Unit × W
  wrlock mutex w = check minus (pt.call w (Call.rwlock_wrlock mutex))

  unfoldable pub trywrlock : ℕ → W → Result Bool × W
  trywrlock mutex w = check_try is_busy (pt.call w (Call.rwlock_trywrlock mutex))

  unfoldable pub rwunlock : ℕ → W → Result Unit × W
  rwunlock mutex w = check minus (pt.call w (Call.rwlock_unlock mutex))

  unfoldable pub signal : ℕ → W → Result Unit × W
  signal cond w = check minus (pt.call w (Call.cond_signal cond))

  unfoldable pub broadcast : ℕ → W → Result Unit × W
  broadcast cond w = check minus (pt.call w (Call.cond_broadcast cond))

  unfoldable pub wait : ℕ → ℕ → W → Result Unit × W
  wait cond mutex w = check minus (pt.call w (Call.cond_wait cond mutex))

  unfoldable pub timedwait : ℕ → ℕ → W → Result Bool × W
  timedwait cond mutex w = check_try is_timeout (pt.call w (Call.cond_timedwait cond mutex))
