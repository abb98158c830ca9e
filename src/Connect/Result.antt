-- ===== src/Connect/Result.antt =====
-- What connect_task (mpsrc/wavy_connect.cc) leaves: the callback has the open socket, or every
-- descriptor is closed.
use mpio.Prelude.{ℕ, zero, suc, ◌+◌, ◌*◌, ◌/◌, ◌≤◌, ◌<◌, ◌≡◌, ◌≢◌, refl, Bool, Option, some, arith}
use mpio.Os.{Reply, Errno}
use mpio.Posix.{Posix, Request, Timespec, SameOpen, Opened, IsLawful}
use mpio.Posix.Opened.{Opened-SameOpen, close-Opened}
use mpio.Connect.{
  Called, fail, finish, polled, wait, begun, set_up, opened, connect_task, Timeout, timeout_msec,
}

-- The poll of this descriptor ends within so many rounds: it is interrupted before the last of them.
abbrev pub EndsWithin : {W : Type 0} → Posix W → ℕ → ℕ → Option ℕ → W → Type 0
EndsWithin os zero fd t w = ⊥
EndsWithin os (suc rounds) fd t w =
    (os.request w fd (Request.poll t)).0 ≡ Reply.failed Errno.eintr
    → EndsWithin os rounds fd t (os.request w fd (Request.poll t)).1

module _ {W : Type 0} (os : Posix W) (is_open : W → ℕ → Bool) (lawful : IsLawful os is_open) where
  abbrev pub Settled : W → Called → W → Type 0
  Settled w (Called.connected fd) w' = Opened is_open fd w w'
  Settled w (Called.refused e) w' = SameOpen is_open w w'

  -- The task returns, and what the callback is given is what is open.
  pub record Done (w : W) (o : Option (Called × W)) : Type 0 where
    pub called : Called
    pub world : W
    pub returns : o ≡ some (called, world)
    pub settled : Settled w called world

  fail-Done : (w w' : W) (fd : ℕ) (e : Errno) → Opened is_open fd w w' → Done w (fail os fd e w')
  fail-Done w w' fd e o = record {
    called = Called.refused e;
    world = os.close w' fd;
    returns = refl;
    settled = close-Opened os is_open lawful fd w w' o;
  }

  connected-Done :
      (w w' : W) (fd : ℕ) → Opened is_open fd w w' → Done w (some (Called.connected fd, w'))
  connected-Done w w' fd o = record {
    called = Called.connected fd;
    world = w';
    returns = refl;
    settled = o;
  }

  finish-Done : (w : W) (fd : ℕ) (r : Reply × W) → Opened is_open fd w r.1 → Done w (finish os fd r)
  unfolding finish
  finish-Done w fd (Reply.failed e, w') o = fail-Done w w' fd e o
  finish-Done w fd (Reply.done zero, w') o = connected-Done w w' fd o
  finish-Done w fd (Reply.done (suc n), w') o = fail-Done w w' fd (Errno.other (suc n)) o

  -- A call on a descriptor leaves the new one open.
  asked :
      (w w' : W) (fd on : ℕ) (q : Request)
      → Opened is_open fd w w'
      → Opened is_open fd w (os.request w' on q).1
  asked w w' fd on q o =
      Opened-SameOpen os is_open lawful fd w w' (os.request w' on q).1 o
        (lawful.request_keeps w' on q)

  polled-Done :
      (w : W) (fd : ℕ) (rest : W → Option (Called × W)) (r : Reply × W)
      → Opened is_open fd w r.1
      → (r.0 ≡ Reply.failed Errno.eintr → Done w (rest r.1))
      → Done w (polled os fd rest r)
  unfolding polled
  polled-Done w fd rest (Reply.failed Errno.eintr, w') o again = again refl
  polled-Done w fd rest (Reply.failed Errno.eagain, w') o again = fail-Done w w' fd Errno.eagain o
  polled-Done w fd rest (Reply.failed Errno.einprogress, w') o again =
      fail-Done w w' fd Errno.einprogress o
  polled-Done w fd rest (Reply.failed Errno.etimedout, w') o again =
      fail-Done w w' fd Errno.etimedout o
  polled-Done w fd rest (Reply.failed Errno.ebusy, w') o again = fail-Done w w' fd Errno.ebusy o
  polled-Done w fd rest (Reply.failed Errno.edeadlk, w') o again = fail-Done w w' fd Errno.edeadlk o
  polled-Done w fd rest (Reply.failed (Errno.other n), w') o again =
      fail-Done w w' fd (Errno.other n) o
  polled-Done w fd rest (Reply.done zero, w') o again = fail-Done w w' fd Errno.etimedout o
  polled-Done w fd rest (Reply.done (suc n), w') o again = finish-Done w fd _ (asked w w' fd fd _ o)

  wait-Done :
      (rounds fd : ℕ) (t : Option ℕ) (w w' : W)
      → Opened is_open fd w w'
      → EndsWithin os rounds fd t w'
      → Done w (wait os rounds fd t w')
  unfolding wait
  wait-Done zero fd t w w' o ends = absurd ends
  wait-Done (suc rounds) fd t w w' o ends =
      polled-Done w fd _ _ (asked w w' fd fd _ o)
        (λ e. wait-Done rounds fd t w _ (asked w w' fd fd _ o) (ends e))

  module _ (rounds : ℕ) (t : Option ℕ) (ends : (fd : ℕ) (w : W) → EndsWithin os rounds fd t w) where
    begun-Done :
        (w : W) (fd : ℕ) (r : Reply × W) → Opened is_open fd w r.1 → Done w (begun os rounds fd t r)
    unfolding begun
    begun-Done w fd (Reply.done n, w') o = connected-Done w w' fd o
    begun-Done w fd (Reply.failed Errno.einprogress, w') o =
        wait-Done rounds fd t w w' o (ends fd w')
    begun-Done w fd (Reply.failed Errno.eagain, w') o = fail-Done w w' fd Errno.eagain o
    begun-Done w fd (Reply.failed Errno.eintr, w') o = fail-Done w w' fd Errno.eintr o
    begun-Done w fd (Reply.failed Errno.etimedout, w') o = fail-Done w w' fd Errno.etimedout o
    begun-Done w fd (Reply.failed Errno.ebusy, w') o = fail-Done w w' fd Errno.ebusy o
    begun-Done w fd (Reply.failed Errno.edeadlk, w') o = fail-Done w w' fd Errno.edeadlk o
    begun-Done w fd (Reply.failed (Errno.other n), w') o = fail-Done w w' fd (Errno.other n) o

    set_up-Done :
        (w : W) (fd addr : ℕ) (r : Reply × W)
        → Opened is_open fd w r.1
        → Done w (set_up os rounds fd addr t r)
    unfolding set_up
    set_up-Done w fd addr (Reply.failed e, w') o = fail-Done w w' fd e o
    set_up-Done w fd addr (Reply.done n, w') o = begun-Done w fd _ (asked w w' fd fd _ o)

    opened-Done :
        (w : W) (addr : ℕ) (r : Reply × W)
        → ((fd : ℕ) → r.0 ≡ Reply.done fd → Opened is_open fd w r.1)
        → ((e : Errno) → r.0 ≡ Reply.failed e → SameOpen is_open w r.1)
        → Done w (opened os rounds addr t r)
    unfolding opened
    opened-Done w addr (Reply.failed e, w') ok bad = record {
      called = Called.refused e;
      world = w';
      returns = refl;
      settled = bad e refl;
    }
    opened-Done w addr (Reply.done fd, w') ok bad =
        set_up-Done w fd addr _ (asked w w' fd fd _ (ok fd refl))

    -- Where poll(2) is interrupted less than `rounds` times in a row, the task calls its callback:
    -- with the new socket, which is the only new open descriptor, or with an error and none.
    pub connect_task-Done :
        (family type protocol addr : ℕ) (w : W)
        → Done w (connect_task os rounds family type protocol addr t w)
    unfolding connect_task
    connect_task-Done family type protocol addr w =
        opened-Done w addr _ (lawful.create_done w _) (lawful.create_failed w _)

-- No timeout of up to an hour is converted to its milliseconds.
pub timeout_msec-wrong :
    (t : Timespec)
    → t.tv_sec ≤ 3600
    → t.tv_nsec < 1000000000
    → timeout_msec (some t) ≢ Timeout.within (t.tv_sec * 1000 + t.tv_nsec / 1000000)
unfolding timeout_msec
timeout_msec-wrong t sec nsec e = ground arith
