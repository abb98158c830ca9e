-- ===== src/Connect.antt =====
-- The class connect_task of mpsrc/wavy_connect.cc: one attempt to connect, made by a worker thread,
-- and the callback's arguments.
-- The task's pack is its arguments here; its memory is in Connect.Pack. errno after close(2) is not
-- used.
pub mod Result
pub mod Pack
use mpio.Prelude.{
  ℕ, zero, suc, ◌+◌, ◌*◌, ◌^◌, Option, none, some, Bool, true, false, ltb, ◌==◌, ◌&&◌, not,
  if◌then◌else◌,
}
use mpio.Os.{Reply, Errno}
use mpio.Posix.{Posix, Create, Request, Timespec}

-- `m->timeout_msec`, an int: -1 waits for ever. A double that an int cannot hold has no defined
-- conversion.
pub data Timeout : Type 0 where
  forever undefined : Timeout
  within : ℕ → Timeout

unfoldable pub timeout_msec : Option Timespec → Timeout
timeout_msec none = Timeout.forever
timeout_msec (some t) =
    if not (t.tv_sec == 0) && not (t.tv_nsec == 0)
    then (let msec = t.tv_sec + t.tv_nsec * 1000000 in
        if ltb msec (2 ^ 31) then Timeout.within msec else Timeout.undefined)
    else Timeout.forever

-- What the callback is given: the descriptor, or -1, and `err`, which is 0 if there is none.
pub data Called : Type 0 where
  connected : ℕ → Called
  refused : Errno → Called

module _ {W : Type 0} (os : Posix W) where
  -- `error:`
  abbrev pub fail : ℕ → Errno → W → Option (Called × W)
  fail fd e w = some (Called.refused e, os.close w fd)

  -- After the poll: `getsockopt` gives the error of the connection as a value.
  unfoldable pub finish : ℕ → Reply × W → Option (Called × W)
  finish fd (Reply.failed e, w) = fail fd e w
  finish fd (Reply.done zero, w) = some (Called.connected fd, w)
  finish fd (Reply.done (suc n), w) = fail fd (Errno.other (suc n)) w

  -- One round of the loop; `rest` goes on with it.
  unfoldable pub polled : ℕ → (W → Option (Called × W)) → Reply × W → Option (Called × W)
  polled fd rest (Reply.failed Errno.eintr, w) = rest w
  polled fd rest (Reply.failed e, w) = fail fd e w
  polled fd rest (Reply.done zero, w) = fail fd Errno.etimedout w
  polled fd rest (Reply.done (suc n), w) = finish fd (os.request w fd Request.so_error)

  -- The loop, none where the rounds do not suffice.
  unfoldable pub wait : ℕ → ℕ → Option ℕ → W → Option (Called × W)
  wait zero fd t w = none
  wait (suc rounds) fd t w = polled fd (wait rounds fd t) (os.request w fd (Request.poll t))

  unfoldable pub begun : ℕ → ℕ → Option ℕ → Reply × W → Option (Called × W)
  begun rounds fd t (Reply.done n, w) = some (Called.connected fd, w)
  begun rounds fd t (Reply.failed Errno.einprogress, w) = wait rounds fd t w
  begun rounds fd t (Reply.failed e, w) = fail fd e w

  unfoldable pub set_up : ℕ → ℕ → ℕ → Option ℕ → Reply × W → Option (Called × W)
  set_up rounds fd addr t (Reply.failed e, w) = fail fd e w
  set_up rounds fd addr t (Reply.done n, w) =
      begun rounds fd t (os.request w fd (Request.connect addr))

  unfoldable pub opened : ℕ → ℕ → Option ℕ → Reply × W → Option (Called × W)
  opened rounds addr t (Reply.failed e, w) = some (Called.refused e, w)
  opened rounds addr t (Reply.done fd, w) =
      set_up rounds fd addr t (os.request w fd Request.set_nonblock)

  -- `operator()`, with the timeout of poll(2)
  unfoldable pub connect_task : ℕ → ℕ → ℕ → ℕ → ℕ → Option ℕ → W → Option (Called × W)
  connect_task rounds family type protocol addr t w =
      opened rounds addr t (os.create w (Create.socket family type protocol))
