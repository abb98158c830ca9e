-- ===== src/Handlers/Lifetime.antt =====
-- Adding and removing a timer or a signal (mpsrc/wavy_timer.cc, mpsrc/wavy_signal.cc).
use mpio.Prelude.{ℕ, ◌≡◌, refl, ◌∙◌, Option, Bool, true, ◌==◌, arith}
use mpio.Os.{Reply}
use mpio.Posix.{Posix, Timespec, SameOpen, IsLawful, Opened}
use mpio.Posix.Opened.{Made, close-Opened, Opened-SameOpen}
use mpio.Family.{update}
use mpio.Kernel.{destroy, remove_fd}
use mpio.Kernel.Files.{add_timer-Made}
use mpio.Handlers.{Table, registered, add_timer, remove_timer, remove_signal}

module _ {W : Type 0} (os : Posix W) (is_open : W → ℕ → Bool) (lawful : IsLawful os is_open)
    (ep : ℕ) where
  -- What an operation that adds a handler leaves: its descriptor is new and in the table; or nothing has
  -- changed.
  abbrev pub Added : Table → W → Reply × (Table × W) → Type 0
  Added t w (Reply.done fd, (t', w')) = Opened is_open fd w w' × (t' ≡ update t fd true)
  Added t w (Reply.failed e, (t', w')) = SameOpen is_open w w' × (t' ≡ t)

  registered-Added :
      (t : Table) (w : W) (r : Reply × W) → Made is_open w r → Added t w (registered os ep t r)
  unfolding registered
  registered-Added t w (Reply.done fd, w') m = (m, refl)
  registered-Added t w (Reply.failed e, w') m = (m, refl)

  -- Adding a timer leaves a new descriptor, which is in the table, or what was before.
  pub add_timer-Added :
      (value interval : Option Timespec) (t : Table) (w : W)
      → Added t w (add_timer os ep value interval t w)
  unfolding add_timer
  add_timer-Added value interval t w =
      registered-Added t w _ (add_timer-Made os is_open lawful ep value interval w)

  -- Removing a handler whose descriptor is new, as a timer or as a signal, leaves the descriptors open
  -- that were open before it was added.
  pub remove-SameOpen :
      (t : Table) (w w' : W) (fd : ℕ)
      → Opened is_open fd w w'
      → SameOpen is_open w (remove_timer os ep fd (update t fd true) w').1
        × SameOpen is_open w (remove_signal os ep fd (update t fd true) w').1
  unfolding remove_timer remove_signal remove_fd destroy
  remove-SameOpen t w w' fd o =
      let here : (fd == fd) ≡ true = ground arith in
      rw here (
        λ d. lawful.request_keeps _ ep _ d ∙ close-Opened os is_open lawful fd w w' o d,
        close-Opened os is_open lawful fd w _
            (Opened-SameOpen os is_open lawful fd w w' _ o (lawful.request_keeps w' ep _)),
      )
