-- ===== src/Listen.antt =====
-- `loop::listen` and the class listen_handler of mpsrc/wavy_listen.cc.
-- That `new` finds memory for the handler is taken for granted.
pub mod Result
use mpio.Prelude.{
  ℕ, zero, suc, List, [], ◌∷◌, ◌++◌, Option, none, some, Bool, true, false, if◌then◌else◌,
}
use mpio.Os.{Reply, Errno, is_transient}
use mpio.Posix.{Posix, Create, Request, or_close, or_fail}
use mpio.Kernel.{add_fd, epollin}

-- How a read of the handler ends.
pub data Ended : Type 0 where
  drained thrown : Ended

module _ {W : Type 0} (os : Posix W) (accepts : Errno → W → W) (callback : ℕ → W → Bool × W) where
  -- A socket is given to the callback, and closed where that throws; the callback takes an error as
  -- `accepts`, and its exception and the code's own end the read alike.
  abbrev pub given : ℕ → Bool × W → W
  given sock (true, w) = w
  given sock (false, w) = os.close w sock

  unfoldable pub accepted : (W → Option (Ended × W)) → Reply × W → Option (Ended × W)
  accepted rest (Reply.done sock, w) = rest (given sock (callback sock w))
  accepted rest (Reply.failed e, w) =
      if is_transient e then some (Ended.drained, w) else some (Ended.thrown, accepts e w)

  -- `on_read`, none where the rounds do not suffice.
  unfoldable pub on_read : ℕ → ℕ → W → Option (Ended × W)
  on_read zero fd w = none
  on_read (suc rounds) fd w = accepted (on_read rounds fd) (os.create w (Create.accept fd))

module _ {W : Type 0} (os : Posix W) (ep : ℕ) where
  -- `add_handler` of a listen_handler. Where fcntl fails it throws, and the only reference to the new
  -- handler goes, whose destructor closes the descriptor. What add_fd returns is not looked at.
  unfoldable pub add_handler : ℕ → W → Reply × W
  add_handler fd w =
      or_close os fd (os.request w fd Request.set_nonblock)
        (λ w. (Reply.done fd, (add_fd os ep fd epollin w).1))

  -- `catch(...) { ::close(lsock); throw; }`
  unfoldable pub listen : ℕ → ℕ → ℕ → ℕ → ℕ → W → Reply × W
  listen family type protocol addr backlog w =
      or_fail (os.create w (Create.socket family type protocol)) (λ lsock w.
        or_close os lsock (os.request w lsock Request.set_reuseaddr) (λ w.
          or_close os lsock (os.request w lsock (Request.bind addr)) (λ w.
            or_close os lsock (os.request w lsock (Request.listen backlog))
              (λ w. or_close os lsock (add_handler lsock w) (λ w. (Reply.done lsock, w))))))
