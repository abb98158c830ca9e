-- ===== src/Kernel.antt =====
-- The class kernel of mpsrc/wavy_kernel_epoll.h (with timerfd and signalfd): what is registered with
-- epoll, and the 64 bits that come back with each event.
-- The descriptors are not negative, and `m_ep` is the argument `ep`.
pub mod Bits
pub mod Files
pub mod Pipe
pub mod PipeFiles
use mpio.Prelude.{zero, suc, ℕ, ◌+◌, ◌*◌, ◌/◌, ◌%◌, ◌^◌, Option, none, some, Bool, true, false}
use Prim.Native.Nat.{bit_or, bit_and}
use mpio.Os.{Reply, Errno}
use mpio.Posix.{Posix, Create, Request, Timespec, Itimerspec, or_close, or_fail}

-- EPOLLIN, which is EVKERNEL_READ, and EPOLLONESHOT
abbrev pub epollin : ℕ
epollin = 1

abbrev pub epolloneshot : ℕ
epolloneshot = 2 ^ 30

-- MP_WAVY_KERNEL_BACKLOG_SIZE
abbrev pub backlog_size : ℕ
backlog_size = 1024

-- `kernel::event`, by its `m_data`
pub record Event : Type 0 where
  pub udata : ℕ

unfoldable pub ident : Event → ℕ
ident e = bit_and e.udata 0xffffffff

unfoldable pub events : Event → ℕ
events e = e.udata / 2 ^ 32 % 2 ^ 32

-- `ev.data.u64` of a descriptor and `ev.events`
unfoldable pub pack : ℕ → ℕ → ℕ
pack fd evs = bit_or fd (evs * 2 ^ 32 % 2 ^ 64)

-- What `memset` leaves
abbrev never : Timespec
never = record { tv_sec = 0; tv_nsec = 0 }

-- The timer's first and later times: without a value the interval is the value.
unfoldable pub itimer : Option Timespec → Option Timespec → Itimerspec
itimer none none = record { it_interval = never; it_value = never }
itimer none (some i) = record { it_interval = i; it_value = i }
itimer (some v) none = record { it_interval = never; it_value = v }
itimer (some v) (some i) = record { it_interval = i; it_value = v }

-- The constructor, whose result is `m_ep` or what it throws, and the destructor.
module _ {W : Type 0} (os : Posix W) where
  unfoldable pub new : W → Reply × W
  new w = os.create w Create.epoll_create

  unfoldable pub close : ℕ → W → W
  close ep w = os.close w ep

  -- How many descriptors there may be.
  unfoldable pub max : W → Reply × W
  max w = os.getrlimit w

module _ {W : Type 0} (os : Posix W) (ep : ℕ) where
  unfoldable pub add_fd : ℕ → ℕ → W → Reply × W
  add_fd fd event w =
      let evs = bit_or event epolloneshot in
      os.request w ep (Request.epoll_add fd evs (pack fd evs))

  unfoldable pub remove_fd : ℕ → W → Reply × W
  remove_fd fd w = os.request w ep (Request.epoll_del fd)

  unfoldable pub reactivate : Event → W → Reply × W
  reactivate e w = os.request w ep (Request.epoll_mod (ident e) (events e) e.udata)

  unfoldable pub remove : Event → W → Reply × W
  remove e w = os.request w ep (Request.epoll_del (ident e))

  -- The descriptor is also stored in the timer object.
  unfoldable pub add_timer : Option Timespec → Option Timespec → W → Reply × W
  add_timer value interval w = or_fail (os.create w Create.timerfd_create) (λ fd w.
      or_close os fd (os.request w fd Request.set_nonblock) (λ w.
        or_close os fd (os.request w fd (Request.timerfd_settime (itimer value interval)))
          (λ w. or_close os fd (add_fd fd epollin w) (λ w. (Reply.done fd, w)))))

  unfoldable pub add_signal : ℕ → W → Reply × W
  add_signal signo w = or_fail (os.create w (Create.signalfd signo)) (λ fd w.
      or_close os fd (os.request w fd Request.set_nonblock)
        (λ w. or_close os fd (add_fd fd epollin w) (λ w. (Reply.done fd, w))))

  unfoldable pub add_kernel : ℕ → W → Reply × W
  add_kernel other_ep w = or_fail (add_fd other_ep epollin w) (λ n w. (Reply.done other_ep, w))

  -- The reads of a timer's and of a signal's descriptor: 0, or -1 where nothing is read.
  abbrev pub or_nothing : Reply × W → Bool × W
  or_nothing (Reply.done zero, w) = (false, w)
  or_nothing (Reply.done (suc n), w) = (true, w)
  or_nothing (Reply.failed e, w) = (false, w)

  unfoldable pub read_timer : Event → W → Bool × W
  read_timer e w = or_nothing (os.request w (ident e) (Request.read 8))

  unfoldable pub read_signal : Event → W → Bool × W
  read_signal e w = or_nothing (os.request w (ident e) (Request.read 128))

  -- How many events were delivered to the backlog.
  unfoldable pub wait : Option ℕ → W → Reply × W
  wait timeout_msec w = os.request w ep (Request.epoll_wait backlog_size timeout_msec)

  -- Of the timer and of the signal object: the descriptor is closed if there is one.
  unfoldable pub destroy : Option ℕ → W → W
  destroy none w = w
  destroy (some fd) w = os.close w fd
