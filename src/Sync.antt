-- ===== src/Sync.antt =====
-- mp/sync.hmpl: an object with a mutex, and `sync::ref` and `sync::auto_ref`, which lock it while they refer to
-- it. A sync<T> and a ref are numbers, of all the threads; a call is one step, and one that locks waits until
-- the mutex is free. Where `lock` throws, a constructor makes no ref and `reset(obj)` has done `reset()`.
-- `swap` and `operator=` are left out: they cannot be instantiated.
pub mod Exclusive
use mpio.Prelude.{ℕ, ◌≡◌, ◌≢◌, Option, none, some, ◌>>=◌, Bool, true, false, ◌==◌, if◌then◌else◌}
use mpio.Family.{update}

-- `refs r` is `m_ref` of the ref r, and NULL where there is no such ref; `locked m` is the state of the mutex
-- of m.
pub record Sync : Type 0 where
  pub refs : ℕ → Option ℕ
  pub locked : ℕ → Bool

abbrev pub init : Sync
init = record { refs = λ r. none; locked = λ m. false }

-- `none` where the mutex is not free.
abbrev pub lock : ℕ → Sync → Option Sync
lock m s = if s.locked m then none else some (record s { locked = update s.locked m true })

abbrev pub unlock : ℕ → Sync → Sync
unlock m s = record s { locked = update s.locked m false }

abbrev pub refer : ℕ → Option ℕ → Sync → Sync
refer r m s = record s { refs = update s.refs r m }

-- `ref(sync<T>& obj)`, and `auto_ref` likewise
unfoldable pub create : ℕ → ℕ → Sync → Option Sync
create r m s = lock m s >>= λ s'. some (refer r (some m) s')

-- `if(m_ref) { m_ref->m_mutex.unlock(); m_ref = NULL; }`
abbrev pub reset_from : Option ℕ → ℕ → Sync → Sync
reset_from none r s = s
reset_from (some m) r s = refer r none (unlock m s)

-- `reset()`, and the destructor
unfoldable pub reset : ℕ → Sync → Sync
reset r s = reset_from (s.refs r) r s

-- `reset(sync<T>& obj)`
unfoldable pub reset_to : ℕ → ℕ → Sync → Option Sync
reset_to r m s = create r m (reset r s)

-- `auto_ref(auto_ref& o)`
unfoldable pub move : ℕ → ℕ → Sync → Sync
move o r s = refer o none (refer r (s.refs o) s)

-- `operator*`: the object that is reached. The operators do not test for NULL.
unfoldable pub get : ℕ → Sync → Option ℕ
get r s = s.refs r

-- What the threads do with their refs: a constructor is of a ref that is not there.
pub data Step : Sync → Sync → Type 0 where
  creates : {s t : Sync} (r m : ℕ) → s.refs r ≡ none → create r m s ≡ some t → Step s t
  resets : {s t : Sync} (r : ℕ) → reset r s ≡ t → Step s t
  resets_to : {s t : Sync} (r m : ℕ) → reset_to r m s ≡ some t → Step s t
  moves : {s t : Sync} (o r : ℕ) → s.refs r ≡ none → o ≢ r → move o r s ≡ t → Step s t

pub data Reach : Sync → Type 0 where
  begins : Reach init
  after : {s t : Sync} → Reach s → Step s t → Reach t
