-- ===== src/Connect/Pack.antt =====
-- `loop::connect` (mpsrc/wavy_connect.cc), and the pack in which the task keeps its arguments: made by the
-- constructor, used and freed by `operator()`. The copies of a task share its pack.
pub mod Once
use mpio.Prelude.{ℕ, ◌+◌, Option, none, some, ◌>>=◌}
use mpio.Posix.{Posix, Timespec}
use mpio.Family.{update}
use mpio.Connect.{Timeout, timeout_msec, Called, connect_task}
use mpio.Loop.{Loop, submit}

-- `addr` stands for the bytes of the address.
pub record Pack : Type 0 where
  pub socket_family : ℕ
  pub socket_type : ℕ
  pub protocol : ℕ
  pub addrlen : ℕ
  pub timeout_msec : Timeout
  pub addr : ℕ

-- The packs that are allocated, by their addresses.
abbrev pub Packs : Type 0
Packs = ℕ → Option Pack

abbrev pub sizeof_pack : ℕ
sizeof_pack = 20

-- The timeout of poll(2), where the conversion that is not defined gives `cast`.
unfoldable pub poll_timeout : Option ℕ → Timeout → Option ℕ
poll_timeout cast Timeout.forever = none
poll_timeout cast Timeout.undefined = cast
poll_timeout cast (Timeout.within n) = some n

-- What comes of running a task: it has touched a pack that is freed, its poll loop has not ended within
-- the rounds, or it has called its callback.
pub data Ran (W : Type 0) : Type 0 where
  faults waits : Ran W
  calls : Called → Packs → W → Ran W

-- `::free(m)` before the callback
abbrev pub released : {W : Type 0} → ℕ → Packs → Option (Called × W) → Ran W
released m h none = waits
released m h (some (c, w)) = calls c (update h m none) w

module _ (malloc : ℕ → Packs → Option ℕ) where
  -- The constructor: `none` is bad_alloc.
  unfoldable pub construct : Pack → Packs → Option (ℕ × Packs)
  construct p h = malloc (sizeof_pack + p.addrlen) h >>= λ m. some (m, update h m (some p))

  -- `loop::connect`: the task that is submitted is the one of its pack.
  unfoldable pub connect :
      ℕ → ℕ → ℕ → ℕ → ℕ → Option Timespec → Packs × Loop → Option (Packs × Loop)
  connect family type protocol addr addrlen timeout (h, l) =
      construct
        (record {
          socket_family = family;
          socket_type = type;
          protocol = protocol;
          addrlen = addrlen;
          timeout_msec = timeout_msec timeout;
          addr = addr;
        })
        h
      >>= λ (m, h'). some (h', submit m l)

module _ {W : Type 0} (os : Posix W) (rounds : ℕ) (cast : Option ℕ) where
  abbrev pub run_pack : ℕ → Packs → W → Option Pack → Ran W
  run_pack m h w none = faults
  run_pack m h w (some p) = released m h (
      connect_task os rounds p.socket_family p.socket_type p.protocol p.addr
        (poll_timeout cast p.timeout_msec) w)

  -- `operator()`
  unfoldable pub run : ℕ → Packs → W → Ran W
  run m h w = run_pack m h w (h m)
