-- ===== src/Connect/Pack/Once.antt =====
-- The pack of a task of `loop::connect` (mpsrc/wavy_connect.cc) from its allocation to its release.
use mpio.Prelude.{ℕ, ◌+◌, ◌≡◌, refl, Option, none, some, Bool, ◌==◌, Bool-cases, inl, inr, arith}
use mpio.Posix.{Posix, Timespec, IsLawful}
use mpio.Family.{update, update_self}
use mpio.Connect.{timeout_msec, Called, connect_task}
use mpio.Connect.Result.{EndsWithin, Settled, Done, connect_task-Done}
use mpio.Loop.{Loop, submit}
use mpio.Connect.Pack.{
  Pack, Packs, sizeof_pack, poll_timeout, faults, calls, construct, connect, run,
}

-- What `connect` and then its task do: the call submits the task of the new pack; the task calls the
-- callback as `connect_task` does on the arguments of the call, and leaves the packs as they were before
-- the call; and a second run of the task would touch a freed pack.
pub record Once (malloc : ℕ → Packs → Option ℕ) {W : Type 0} (os : Posix W) (rounds : ℕ)
    (cast : Option ℕ) (call : Packs × Loop → Option (Packs × Loop)) (h : Packs) (l : Loop) (m : ℕ)
    (w : W) (c : Called) (w' : W) : Type 0 where
  pub allocated : Packs
  pub freed : Packs
  pub submits : call (h, l) ≡ some (allocated, submit m l)
  pub called : run os rounds cast m allocated w ≡ calls c freed w'
  pub restored : (i : ℕ) → freed i ≡ h i
  pub no_more : (w'' : W) → run os rounds cast m freed w'' ≡ faults

call-Once :
    (malloc : ℕ → Packs → Option ℕ) {W : Type 0} (os : Posix W) (rounds : ℕ) (cast : Option ℕ)
    (family type protocol addr addrlen m : ℕ) (timeout : Option Timespec) (h : Packs) (l : Loop)
    (c : Called) (w w' : W)
    → malloc (sizeof_pack + addrlen) h ≡ some m
    → h m ≡ none
    → connect_task os rounds family type protocol addr (poll_timeout cast (timeout_msec timeout)) w
      ≡ some (c, w')
    → Once malloc os rounds cast
        (connect malloc family type protocol addr addrlen timeout)
        h
        l
        m
        w
        c
        w'
unfolding connect construct run
call-Once malloc os rounds cast family type protocol addr addrlen m timeout h l c w w' new free
      does =
    record {
      allocated = update h m (some p);
      freed = update (update h m (some p)) m none;
      submits = rw new refl;
      called = rw (update_self h m (some p)) (rw does refl);
      restored =
          λ i. elim (Bool-cases (m == i)) [ inl e ↦ ground (arith, free) | inr d ↦ ground arith ];
      no_more = λ w''. rw (update_self (update h m (some p)) m none) refl;
    }
  where
    p : Pack
    p = record {
      socket_family = family;
      socket_type = type;
      protocol = protocol;
      addrlen = addrlen;
      timeout_msec = timeout_msec timeout;
      addr = addr;
    }

-- Where malloc gives an address that is not in use, and poll(2) is interrupted less than `rounds`
-- times in a row: `connect` submits one task; the task calls its callback with the new socket,
-- which is the only new open descriptor, or with an error and none, and leaves the allocated
-- packs as they were before `connect`; running it a second time would touch a freed pack.
pub connect-Once :
    (malloc : ℕ → Packs → Option ℕ) {W : Type 0} (os : Posix W) (is_open : W → ℕ → Bool)
    (lawful : IsLawful os is_open) (rounds : ℕ) (cast : Option ℕ)
    (family type protocol addr addrlen m : ℕ) (timeout : Option Timespec) (h : Packs) (l : Loop)
    (w : W)
    → malloc (sizeof_pack + addrlen) h ≡ some m
    → h m ≡ none
    → ((fd : ℕ) (w' : W) → EndsWithin os rounds fd (poll_timeout cast (timeout_msec timeout)) w')
    → (c : Called) × (w' : W) × Settled os is_open lawful w c w'
      × Once malloc os rounds cast
          (connect malloc family type protocol addr addrlen timeout)
          h
          l
          m
          w
          c
          w'
connect-Once malloc os is_open lawful rounds cast family type protocol addr addrlen m timeout h l w
      new free ends =
    let t : Option ℕ = poll_timeout cast (timeout_msec timeout) in
    let d : Done os is_open lawful w (connect_task os rounds family type protocol addr t w) =
      connect_task-Done os is_open lawful rounds t ends family type protocol addr w in
    (
      d.called,
      d.world,
      d.settled,
      call-Once malloc os rounds cast family type protocol addr addrlen m timeout h l d.called w
          d.world new free d.returns,
    )
