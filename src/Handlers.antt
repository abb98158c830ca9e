-- ===== src/Handlers.antt =====
-- The handlers of timers and signals: mpsrc/wavy_timer.h, mpsrc/wavy_timer.cc, mpsrc/wavy_signal.h and
-- mpsrc/wavy_signal.cc. `table d` says whether the loop's `m_state[d]` is set, which has the only
-- reference to the handler. The masks and dispositions of signals are not modelled.
pub mod Lifetime
use mpio.Prelude.{ℕ, Option, none, some, Bool, true, false, not, ◌&&◌, ◌||◌, ◌==◌, if◌then◌else◌}
use mpio.Os.{Reply, Errno}
use mpio.Posix.{Posix, Request, Timespec}
use mpio.Family.{update}
use mpio.Kernel.{Event, ident, destroy, remove_fd, read_timer, read_signal}
use mpio.Kernel

abbrev pub Table : Type 0
Table = ℕ → Bool

-- `m_periodic`
unfoldable pub is_periodic : Option Timespec → Bool
is_periodic none = false
is_periodic (some i) = not (i.tv_sec == 0) || not (i.tv_nsec == 0)

module _ {W : Type 0} (os : Posix W) (ep : ℕ) where
  -- Where the handler cannot be made it throws.
  unfoldable pub registered : Table → Reply × W → Reply × (Table × W)
  registered t (Reply.failed e, w) = (Reply.failed e, (t, w))
  registered t (Reply.done fd, w) = (Reply.done fd, (update t fd true, w))

  unfoldable pub add_timer : Option Timespec → Option Timespec → Table → W → Reply × (Table × W)
  add_timer value interval t w = registered t (mpio.Kernel.add_timer os ep value interval w)

  unfoldable pub add_signal : ℕ → Table → W → Reply × (Table × W)
  add_signal signo t w = registered t (mpio.Kernel.add_signal os ep signo w)

  -- `reset_handler`: the handler that was there is destroyed, and with it its descriptor.
  abbrev pub reset_handler : ℕ → Table → W → Table × W
  reset_handler fd t w = (update t fd false, if t fd then destroy os ep (some fd) w else w)

  unfoldable pub remove_timer : ℕ → Table → W → Table × W
  remove_timer fd t w = let r = reset_handler fd t w in (r.0, (remove_fd os ep fd r.1).1)

  unfoldable pub remove_signal : ℕ → Table → W → Table × W
  remove_signal fd t w = reset_handler fd t (remove_fd os ep fd w).1

  -- The handlers: the result says whether the event goes on. What was read is not looked at.
  unfoldable pub on_timer : (W → Bool × W) → Option Timespec → Event → W → Bool × W
  on_timer callback interval e w =
      let r = callback (read_timer os ep e w).1 in (r.0 && is_periodic interval, r.1)

  unfoldable pub on_signal : (W → Bool × W) → Event → W → Bool × W
  on_signal callback e w = callback (read_signal os ep e w).1
