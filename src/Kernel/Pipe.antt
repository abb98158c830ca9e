-- ===== src/Kernel/Pipe.antt =====
-- The timers of mpsrc/wavy_kernel_epoll.h without timerfd (DISABLE_TIMERFD): a POSIX timer whose
-- notification writes to a pipe. What makes pipes and timers is a record over the world.
use mpio.Prelude.{
  ℕ, zero, suc, ◌+◌, ◌-◌, List, [], ◌++◌, Option, none, some, if◌then◌else◌, Bool, true, false,
}
use mpio.Os.{Reply, is_transient, Os}
use mpio.Posix.{Posix, Request, Timespec, Itimerspec}
use mpio.Xfer.Items.{Item, mem, range}
use mpio.Kernel.{epollin, itimer, add_fd}

-- The read and the write end of a pipe, or none; a timer, or none.
pub record Timers (W : Type 0) : Type 0 where
  pub pipe : W → Option (ℕ × ℕ) × W
  pub timer_create : W → ℕ → Option ℕ × W
  pub timer_settime : W → ℕ → Itimerspec → Reply × W
  pub timer_delete : W → ℕ → W

module _ {W : Type 0} (os : Posix W) (tm : Timers W) (ep : ℕ) where
  -- `::close(pipefd[1]); ::close(pipefd[0]); return -1;`
  abbrev pub fail : ℕ → ℕ → W → Option (ℕ × ℕ) × W
  fail rd wr w = (none, os.close (os.close w wr) rd)

  abbrev pub or_fail : ℕ → ℕ → Reply × W → (W → Option (ℕ × ℕ) × W) → Option (ℕ × ℕ) × W
  or_fail rd wr (Reply.done n, w) rest = rest w
  or_fail rd wr (Reply.failed e, w) rest = fail rd wr w

  unfoldable pub armed : ℕ → ℕ → Itimerspec → Option ℕ × W → Option (ℕ × ℕ) × W
  armed rd wr it (none, w) = fail rd wr w
  armed rd wr it (some id, w) =
      or_fail rd wr (tm.timer_settime w id it)
        (λ w. or_fail rd wr (add_fd os ep rd epollin w) (λ w. (some (rd, id), w)))

  unfoldable pub piped : Itimerspec → Option (ℕ × ℕ) × W → Option (ℕ × ℕ) × W
  piped it (none, w) = (none, w)
  piped it (some (rd, wr), w) =
      or_fail rd wr (os.request w rd Request.set_nonblock)
        (λ w. armed rd wr it (tm.timer_create w wr))

  -- The descriptor and the timer that are stored in the timer object.
  unfoldable pub add_timer : Option Timespec → Option Timespec → W → Option (ℕ × ℕ) × W
  add_timer value interval w = piped (itimer value interval) (tm.pipe w)

  -- The destructor of the timer object
  unfoldable pub destroy : Option (ℕ × ℕ) → W → W
  destroy none w = w
  destroy (some (fd, id)) w = os.close (tm.timer_delete w id) fd

-- `timer_thread_handler` writes the eight bytes of its argument, from `p` to `endp`. `none`: no fuel
-- left; what was written, and whether the pipe was closed.
module _ {W : Type 0} (os : Os W) (pipefd : ℕ) where
  abbrev pub noted : List Item → Option (List Item × (Bool × W)) → Option (List Item × (Bool × W))
  noted done none = none
  noted done (some (log, r)) = some (done ++ log, r)

  unfoldable pub handler_wrote :
      (ℕ → ℕ → W → Option (List Item × (Bool × W)))
      → ℕ
      → ℕ
      → Reply × W
      → Option (List Item × (Bool × W))
  handler_wrote again p size (Reply.failed e, w) =
      if is_transient e then again p size w else some ([], (true, w))
  handler_wrote again p size (Reply.done wl, w) =
      noted (range mem p wl) (again (p + wl) (size - wl) w)

  unfoldable pub handler_loop : ℕ → ℕ → ℕ → W → Option (List Item × (Bool × W))
  handler_loop zero p size w = none
  handler_loop (suc fuel) p zero w = some ([], (false, w))
  handler_loop (suc fuel) p (suc size) w =
      handler_wrote (handler_loop fuel) p (suc size) (os.write w pipefd p (suc size))

  unfoldable pub timer_thread_handler : ℕ → ℕ → W → Option (List Item × (Bool × W))
  timer_thread_handler fuel val w = handler_loop fuel val 8 w
