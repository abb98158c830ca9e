-- ===== src/Posix.antt =====
-- The system calls that make, set up and close descriptors. They are not code of the program: they are
-- the fields of a record over an abstract world, with what their manual pages document of them.
pub mod Opened
use mpio.Prelude.{ℕ, Bool, true, false, ◌≡◌, Option, ◌==◌, if◌then◌else◌}
use mpio.Os.{Reply}

pub record Timespec : Type 0 where
  pub tv_sec : ℕ
  pub tv_nsec : ℕ

pub record Itimerspec : Type 0 where
  pub it_interval : Timespec
  pub it_value : Timespec

-- The calls that make a descriptor; an address is what the caller passes for it.
pub data Create : Type 0 where
  socket : ℕ → ℕ → ℕ → Create
  accept : ℕ → Create
  timerfd_create : Create
  signalfd : ℕ → Create
  epoll_create kqueue : Create

-- The calls on a descriptor. A poll without a timeout waits for ever. The calls of epoll_ctl and
-- epoll_wait are on the descriptor of the epoll instance.
pub data Request : Type 0 where
  set_nonblock so_error set_reuseaddr : Request
  connect bind listen read : ℕ → Request
  poll : Option ℕ → Request
  timerfd_settime : Itimerspec → Request
  epoll_add epoll_mod : (fd events udata : ℕ) → Request
  epoll_del : ℕ → Request
  epoll_wait : (max : ℕ) → Option ℕ → Request

pub record Posix (W : Type 0) : Type 0 where
  pub create : W → Create → Reply × W
  pub request : W → ℕ → Request → Reply × W
  pub close : W → ℕ → W
  pub getrlimit : W → Reply × W

-- The same descriptors are open in both worlds.
abbrev pub SameOpen : {W : Type 0} → (W → ℕ → Bool) → W → W → Type 0
SameOpen is_open w w' = (d : ℕ) → is_open w' d ≡ is_open w d

-- A descriptor that was not open is, and no other has changed.
abbrev pub Opened : {W : Type 0} → (W → ℕ → Bool) → ℕ → W → W → Type 0
Opened is_open fd w w' =
    (is_open w fd ≡ false) × ((d : ℕ) → is_open w' d ≡ (if d == fd then true else is_open w d))

-- `is_open w d` says whether d is open in the world w.
pub record IsLawful {W : Type 0} (os : Posix W) (is_open : W → ℕ → Bool) : Type 0 where
  pub create_done :
      (w : W) (c : Create) (fd : ℕ)
      → (os.create w c).0 ≡ Reply.done fd
      → Opened is_open fd w (os.create w c).1
  pub create_failed :
      (w : W) (c : Create) (e : _)
      → (os.create w c).0 ≡ Reply.failed e
      → SameOpen is_open w (os.create w c).1
  pub request_keeps : (w : W) (fd : ℕ) (r : Request) → SameOpen is_open w (os.request w fd r).1
  pub getrlimit_keeps : (w : W) → SameOpen is_open w (os.getrlimit w).1
  pub close_closes :
      (w : W) (fd d : ℕ) → is_open (os.close w fd) d ≡ (if d == fd then false else is_open w d)

-- `if(call < 0) { ::close(fd); return -1; }`
abbrev pub or_close : {W : Type 0} → Posix W → ℕ → Reply × W → (W → Reply × W) → Reply × W
or_close os fd (Reply.done n, w) rest = rest w
or_close os fd (Reply.failed e, w) rest = (Reply.failed e, os.close w fd)

-- `if(fd < 0) { return -1; }`
abbrev pub or_fail : {W : Type 0} → Reply × W → (ℕ → W → Reply × W) → Reply × W
or_fail (Reply.done fd, w) rest = rest fd w
or_fail (Reply.failed e, w) rest = (Reply.failed e, w)
