-- ===== src/Pthread/Errors.antt =====
-- Which errors the wrappers of mp/pthread.h return and which codes they throw.
use mpio.Prelude.{◌≡◌, refl, sym, ap, arith, Bool, true, false, Option, none, some}
use mpio.Os.{Errno}
use mpio.Pthread.{
  Call, thread_detach, thread_join, mutex_lock, mutex_trylock, mutex_unlock, rwlock_rdlock,
  rwlock_tryrdlock, rwlock_wrlock, rwlock_trywrlock, rwlock_unlock, cond_signal, cond_broadcast,
  cond_wait, cond_timedwait, Pthread, Code, plus, minus, Result, check, check_try, is_busy,
  is_timeout, detach, join, lock, trylock, unlock, rdlock, tryrdlock, wrlock, trywrlock, rwunlock,
  signal, broadcast, wait, timedwait,
}

-- A call that only returns or throws, as one that is true.
abbrev always : {W : Type 0} → Result Unit × W → Result Bool × W
always (Result.gives u, w) = (Result.gives true, w)
always (Result.throws c, w) = (Result.throws c, w)

-- The method for each call of the thread library.
abbrev pub method : {W : Type 0} → Pthread W → Call → W → Result Bool × W
method pt (thread_detach t) w = always (detach pt t w)
method pt (thread_join t) w = always (join pt t w)
method pt (mutex_lock m) w = always (lock pt m w)
method pt (mutex_trylock m) w = trylock pt m w
method pt (mutex_unlock m) w = always (unlock pt m w)
method pt (rwlock_rdlock m) w = always (rdlock pt m w)
method pt (rwlock_tryrdlock m) w = tryrdlock pt m w
method pt (rwlock_wrlock m) w = always (wrlock pt m w)
method pt (rwlock_trywrlock m) w = trywrlock pt m w
method pt (rwlock_unlock m) w = always (rwunlock pt m w)
method pt (cond_signal c) w = always (signal pt c w)
method pt (cond_broadcast c) w = always (broadcast pt c w)
method pt (cond_wait c m) w = always (wait pt c m w)
method pt (cond_timedwait c m) w = timedwait pt c m w

-- Whether an error is an answer.
abbrev pub answers : Call → Errno → Bool
answers (mutex_trylock m) = is_busy
answers (rwlock_tryrdlock m) = is_busy
answers (rwlock_trywrlock m) = is_busy
answers (cond_timedwait c m) = is_timeout
answers _ = λ e. false

-- The sign of the codes.
abbrev pub sign : Call → Errno → Code
sign (thread_detach t) = plus
sign (thread_join t) = plus
sign _ = minus

-- True where the call returned 0, false where its error is an answer, and else the error's code is
-- thrown.
abbrev pub Agrees : {W : Type 0} → Call → Option Errno × W → Result Bool × W → Type 0
Agrees c (none, w) o = o ≡ (Result.gives true, w)
Agrees c (some e, w) o =
    (answers c e ≡ true → o ≡ (Result.gives false, w))
    × (answers c e ≡ false → o ≡ (Result.throws (sign c e), w))

always-Agrees :
    {W : Type 0} (c : Call) (s : Errno → Code) (r : Option Errno × W)
    → ((e : Errno) → answers c e ≡ false)
    → ((e : Errno) → sign c e ≡ s e)
    → Agrees c r (always (check s r))
always-Agrees c s (none, w) a h = refl
always-Agrees c s (some e, w) a h = (
  λ yes. absurd (ground (arith, a e, yes)),
  λ no. ap (λ code. (Result.throws code, w)) (sym (h e)),
)

check_try-Agrees :
    {W : Type 0} (c : Call) (r : Option Errno × W)
    → ((e : Errno) → sign c e ≡ minus e)
    → Agrees c r (check_try (answers c) r)
check_try-Agrees c (none, w) h = refl
check_try-Agrees c (some e, w) h = (λ yes. rw yes refl, λ no. rw (no, h e) refl)

-- Each method returns true where its call returns 0; it returns false where a try finds the lock busy
-- or a timed wait runs out; and for any other error it throws: for a thread the code of the error, for
-- a mutex, a read-write lock and a condition the code with its sign changed.
pub method-Agrees :
    {W : Type 0} (pt : Pthread W) (c : Call) (w : W) → Agrees c (pt.call w c) (method pt c w)
unfolding detach join lock trylock unlock rdlock tryrdlock wrlock trywrlock rwunlock signal
    broadcast wait timedwait
method-Agrees pt (thread_detach t) w =
    always-Agrees (thread_detach t) plus (pt.call w (thread_detach t)) (λ e. refl) (λ e. refl)
method-Agrees pt (thread_join t) w =
    always-Agrees (thread_join t) plus (pt.call w (thread_join t)) (λ e. refl) (λ e. refl)
method-Agrees pt (mutex_lock m) w =
    always-Agrees (mutex_lock m) minus (pt.call w (mutex_lock m)) (λ e. refl) (λ e. refl)
method-Agrees pt (mutex_trylock m) w =
    check_try-Agrees (mutex_trylock m) (pt.call w (mutex_trylock m)) (λ e. refl)
method-Agrees pt (mutex_unlock m) w =
    always-Agrees (mutex_unlock m) minus (pt.call w (mutex_unlock m)) (λ e. refl) (λ e. refl)
method-Agrees pt (rwlock_rdlock m) w =
    always-Agrees (rwlock_rdlock m) minus (pt.call w (rwlock_rdlock m)) (λ e. refl) (λ e. refl)
method-Agrees pt (rwlock_tryrdlock m) w =
    check_try-Agrees (rwlock_tryrdlock m) (pt.call w (rwlock_tryrdlock m)) (λ e. refl)
method-Agrees pt (rwlock_wrlock m) w =
    always-Agrees (rwlock_wrlock m) minus (pt.call w (rwlock_wrlock m)) (λ e. refl) (λ e. refl)
method-Agrees pt (rwlock_trywrlock m) w =
    check_try-Agrees (rwlock_trywrlock m) (pt.call w (rwlock_trywrlock m)) (λ e. refl)
method-Agrees pt (rwlock_unlock m) w =
    always-Agrees (rwlock_unlock m) minus (pt.call w (rwlock_unlock m)) (λ e. refl) (λ e. refl)
method-Agrees pt (cond_signal c) w =
    always-Agrees (cond_signal c) minus (pt.call w (cond_signal c)) (λ e. refl) (λ e. refl)
method-Agrees pt (cond_broadcast c) w =
    always-Agrees (cond_broadcast c) minus (pt.call w (cond_broadcast c)) (λ e. refl) (λ e. refl)
method-Agrees pt (cond_wait c m) w =
    always-Agrees (cond_wait c m) minus (pt.call w (cond_wait c m)) (λ e. refl) (λ e. refl)
method-Agrees pt (cond_timedwait c m) w =
    check_try-Agrees (cond_timedwait c m) (pt.call w (cond_timedwait c m)) (λ e. refl)
