-- ===== src/Kernel/PipeFiles.antt =====
-- What a timer on a pipe of mpsrc/wavy_kernel_epoll.h leaves, and what its notification writes.
use mpio.Prelude.{
  ℕ, zero, suc, ◌+◌, ◌-◌, ◌<◌, ◌≤◌, ◌≡◌, ◌≢◌, refl, sym, ap, ◌∙◌, List, Option, none, some, Bool,
  true, false, ◌==◌, if◌then◌else◌, arith,
}
use mpio.Os.{Reply, Os, IsLawful, Fine, Answers}
use mpio.Posix.{Posix, Request, Timespec, Itimerspec, SameOpen}
use mpio.Xfer.Items.{Item, mem, range, range-split}
use mpio.Kernel.{add_fd, itimer, epollin}
use mpio.Kernel.Pipe.{
  Timers, fail, or_fail, armed, piped, add_timer, destroy, handler_loop, handler_wrote,
  timer_thread_handler,
}

-- Two descriptors that were not open are, and no other has changed.
pub record Both {W : Type 0} (is_open : W → ℕ → Bool) (rd wr : ℕ) (w w' : W) : Type 0 where
  pub new_read : is_open w rd ≡ false
  pub new_write : is_open w wr ≡ false
  pub apart : rd ≢ wr
  pub now :
      (d : ℕ) → is_open w' d ≡ (if d == rd then true else if d == wr then true else is_open w d)

-- pipe(2) and timer_create(2): a pipe has two new descriptors; the calls on timers keep what is open.
pub record IsTiming {W : Type 0} (tm : Timers W) (is_open : W → ℕ → Bool) : Type 0 where
  pub pipe_done : (w w' : W) (rd wr : ℕ) → tm.pipe w ≡ (some (rd, wr), w') → Both is_open rd wr w w'
  pub pipe_failed : (w w' : W) → tm.pipe w ≡ (none, w') → SameOpen is_open w w'
  pub create_keeps : (w : W) (wr : ℕ) → SameOpen is_open w (tm.timer_create w wr).1
  pub settime_keeps :
      (w : W) (id : ℕ) (it : Itimerspec) → SameOpen is_open w (tm.timer_settime w id it).1
  pub delete_keeps : (w : W) (id : ℕ) → SameOpen is_open w (tm.timer_delete w id)

module _ {W : Type 0} (os : Posix W) (tm : Timers W) (is_open : W → ℕ → Bool)
    (lawful : mpio.Posix.IsLawful os is_open) (timing : IsTiming tm is_open) (ep : ℕ) where
  -- Where a timer is added, its descriptor is open, and one more, the write end of the pipe; else what
  -- was open before.
  abbrev pub Piped : W → Option (ℕ × ℕ) × W → Type 0
  Piped w (none, w') = SameOpen is_open w w'
  Piped w (some (rd, id), w') = (wr : ℕ) × Both is_open rd wr w w'

  Both-SameOpen :
      (rd wr : ℕ) (w w' w'' : W)
      → Both is_open rd wr w w'
      → SameOpen is_open w' w''
      → Both is_open rd wr w w''
  Both-SameOpen rd wr w w' w'' b same = record {
    new_read = b.new_read;
    new_write = b.new_write;
    apart = b.apart;
    now = λ d. same d ∙ b.now d;
  }

  fail-SameOpen :
      (rd wr : ℕ) (w w' : W)
      → Both is_open rd wr w w'
      → SameOpen is_open w (fail os tm ep rd wr w').1
  fail-SameOpen rd wr w w' b d =
      lawful.close_closes (os.close w' wr) rd d
      ∙ ground (arith, lawful.close_closes w' wr d, b.now d, b.new_read, b.new_write)

  or_fail-Piped :
      (rd wr : ℕ) (w w' : W) (r : Reply × W) (rest : W → Option (ℕ × ℕ) × W)
      → Both is_open rd wr w w'
      → SameOpen is_open w' r.1
      → ((w'' : W) → Both is_open rd wr w w'' → Piped w (rest w''))
      → Piped w (or_fail os tm ep rd wr r rest)
  or_fail-Piped rd wr w w' (Reply.done n, w'') rest b same h =
      h w'' (Both-SameOpen rd wr w w' w'' b same)
  or_fail-Piped rd wr w w' (Reply.failed e, w'') rest b same h =
      fail-SameOpen rd wr w w'' (Both-SameOpen rd wr w w' w'' b same)

  armed-Piped :
      (rd wr : ℕ) (w w' : W) (it : Itimerspec) (r : Option ℕ × W)
      → Both is_open rd wr w w'
      → SameOpen is_open w' r.1
      → Piped w (armed os tm ep rd wr it r)
  unfolding armed add_fd
  armed-Piped rd wr w w' it (none, w'') b same =
      fail-SameOpen rd wr w w'' (Both-SameOpen rd wr w w' w'' b same)
  armed-Piped rd wr w w' it (some id, w'') b same =
      or_fail-Piped rd wr w w'' (tm.timer_settime w'' id it)
        (λ w. or_fail os tm ep rd wr (add_fd os ep rd epollin w) (λ w. (some (rd, id), w)))
        (Both-SameOpen rd wr w w' w'' b same) (timing.settime_keeps w'' id it)
        (λ w3 b3.
          or_fail-Piped rd wr w w3 (add_fd os ep rd epollin w3) (λ w. (some (rd, id), w)) b3
            (lawful.request_keeps w3 ep _) (λ w4 b4. (wr, b4)))

  piped-Piped :
      (it : Itimerspec) (w : W) (r : Option (ℕ × ℕ) × W)
      → tm.pipe w ≡ r
      → Piped w (piped os tm ep it r)
  unfolding piped
  piped-Piped it w (none, w') e = timing.pipe_failed w w' e
  piped-Piped it w (some (rd, wr), w') e =
      or_fail-Piped rd wr w w' (os.request w' rd Request.set_nonblock)
        (λ w. armed os tm ep rd wr it (tm.timer_create w wr)) (timing.pipe_done w w' rd wr e)
        (lawful.request_keeps w' rd Request.set_nonblock)
        (λ w2 b2. armed-Piped rd wr w w2 it (tm.timer_create w2 wr) b2 (timing.create_keeps w2 wr))

  -- `add_timer` on a pipe opens the two ends of the pipe, or returns -1 with both closed.
  pub add_timer-Piped :
      (value interval : Option Timespec) (w : W) → Piped w (add_timer os tm ep value interval w)
  unfolding add_timer
  add_timer-Piped value interval w = piped-Piped (itimer value interval) w (tm.pipe w) refl

  -- A timer on a pipe that is made and destroyed leaves one descriptor open that was not, the write end
  -- of its pipe.
  pub destroy_leaves :
      (value interval : Option Timespec) (w w' : W) (fd id : ℕ)
      → add_timer os tm ep value interval w ≡ (some (fd, id), w')
      → (wr : ℕ) × (is_open w wr ≡ false)
        × ((d : ℕ)
            → is_open (destroy os tm ep (some (fd, id)) w') d
              ≡ (if d == wr then true else is_open w d))
  unfolding destroy
  destroy_leaves value interval w w' fd id e =
      let added : Piped w (add_timer os tm ep value interval w) =
        add_timer-Piped value interval w in
      let (wr, b) = rw e at added in
      (
        wr,
        b.new_write,
        λ d.
            lawful.close_closes (tm.timer_delete w' id) fd d
            ∙ ground (arith, timing.delete_keeps w' id d, b.now d, b.new_read, b.apart),
      )

-- What the notification of a timer writes.
module _ {W : Type 0} (os : Os W) (lawful : IsLawful os) (answers : Answers ⊥ os) (pipefd : ℕ) where
  handler_wrote-all :
      (again : ℕ → ℕ → W → Option (List Item × (Bool × W))) (p size : ℕ) (r : Reply × W)
      → Fine ⊥ r.0
      → ((n : ℕ) → r.0 ≡ Reply.done n → n ≤ size)
      → ((wl : ℕ) (w : W)
          → 0 < wl
          → wl ≤ size
          → (w' : W) × (again (p + wl) (size - wl) w
              ≡ some (range mem (p + wl) (size - wl), (false, w'))))
      → (w' : W) × (handler_wrote os pipefd again p size r ≡ some (range mem p size, (false, w')))
  unfolding handler_wrote
  handler_wrote-all again p size (Reply.failed e, w) fine le ih = absurd (fine.1)
  handler_wrote-all again p size (Reply.done wl, w) fine le ih =
      let (w', e) = ih wl w fine (le wl refl) in
      (
        w',
        rw e (
            ap (λ l. some (l, (false, w')))
              (sym (range-split mem p wl (size - wl) size (omega (arith, le wl refl))))),
      )

  handler_loop-all :
      (fuel p size : ℕ) (w : W)
      → size < fuel
      → (w' : W) × (handler_loop os pipefd fuel p size w ≡ some (range mem p size, (false, w')))
  unfolding handler_loop range
  handler_loop-all zero p size w h = absurd (omega arith)
  handler_loop-all (suc fuel) p zero w h = (w, refl)
  handler_loop-all (suc fuel) p (suc size) w h =
      handler_wrote-all (handler_loop os pipefd fuel) p (suc size) (os.write w pipefd p (suc size))
        (answers.write_fine w pipefd p (suc size) (omega arith))
        (lawful.write_le w pipefd p (suc size))
        (λ wl w' some_of le. handler_loop-all fuel (p + wl) (suc size - wl) w' (omega arith))

  -- Where each write takes some bytes, nine rounds are enough: the notification of a timer writes the
  -- eight bytes of its argument, in order, and does not close the pipe.
  pub timer_thread_handler-writes :
      (val : ℕ) (w : W)
      → (w' : W) × (timer_thread_handler os pipefd 9 val w ≡ some (range mem val 8, (false, w')))
  unfolding timer_thread_handler
  timer_thread_handler-writes val w = handler_loop-all 9 val 8 w (omega arith)
