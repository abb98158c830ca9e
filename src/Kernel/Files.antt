-- ===== src/Kernel/Files.antt =====
-- The descriptors that `add_timer` and `add_signal` of mpsrc/wavy_kernel_epoll.h leave open.
use mpio.Prelude.{ℕ, Bool, ◌≡◌, Option, some}
use mpio.Os.{Reply}
use mpio.Posix.{Posix, Timespec, SameOpen, IsLawful}
use mpio.Posix.Opened.{Made, create-Made, or_close-Made, close-Opened}
use mpio.Kernel.{add_fd, add_timer, add_signal, destroy}

module _ {W : Type 0} (os : Posix W) (is_open : W → ℕ → Bool) (lawful : IsLawful os is_open)
    (ep : ℕ) where
  -- `add_timer` returns a new open descriptor, or -1 with every descriptor that it made closed.
  pub add_timer-Made :
      (value interval : Option Timespec) (w : W) → Made is_open w (add_timer os ep value interval w)
  unfolding add_timer add_fd
  add_timer-Made value interval w = create-Made os is_open lawful w _ _ (λ fd w1 o.
      or_close-Made os is_open lawful fd w w1 fd _ _ o (λ w2 o.
        or_close-Made os is_open lawful fd w w2 fd _ _ o
          (λ w3 o. or_close-Made os is_open lawful fd w w3 ep _ _ o (λ w4 o. o))))

  -- `add_signal` likewise.
  pub add_signal-Made : (signo : ℕ) (w : W) → Made is_open w (add_signal os ep signo w)
  unfolding add_signal add_fd
  add_signal-Made signo w = create-Made os is_open lawful w _ _ (λ fd w1 o.
      or_close-Made os is_open lawful fd w w1 fd _ _ o
        (λ w2 o. or_close-Made os is_open lawful fd w w2 ep _ _ o (λ w3 o. o)))

  -- A timer that is made and destroyed leaves the descriptors open that were open before.
  pub add_timer-destroy :
      (value interval : Option Timespec) (w w' : W) (fd : ℕ)
      → add_timer os ep value interval w ≡ (Reply.done fd, w')
      → SameOpen is_open w (destroy os ep (some fd) w')
  unfolding destroy
  add_timer-destroy value interval w w' fd e =
      let added : Made is_open w (add_timer os ep value interval w) =
        add_timer-Made value interval w in
      close-Opened os is_open lawful fd w w' (rw e at added)
