-- ===== src/Send.antt =====
-- The calls of loop that send with a finalizer: mpsrc/wavy_out.cc, from `loop::write` on. Each puts
-- its commands together on the stack and hands them to `out::commit_raw`.
pub mod Sent
use mpio.Prelude.{ℕ, List, [], ◌∷◌, ◌++◌, Bool}
use mpio.Memory.{Outcome}
use mpio.Os.{Iovec, Os}
use mpio.Xfer.Command.{
  Command, iovec, sendfile, finalize, fill_mem, fill_iovec, fill_sendfile, fill_finalize,
}
use mpio.Out.{Out, Step, commit_raw}

module _ (realloc : ℕ → Bool) {W : Type 0} (os : Os W) (o : Out) (fd : ℕ) where
  unfoldable pub write : (buf size fin user : ℕ) → W → Outcome (Step W)
  write buf size fin user w =
      commit_raw realloc os o fd (fill_mem buf size ++ fill_finalize fin user) w

  unfoldable pub writev : List Iovec → (fin user : ℕ) → W → Outcome (Step W)
  writev vec fin user w = commit_raw realloc os o fd (fill_iovec vec ++ fill_finalize fin user) w

  unfoldable pub sendfile_to : (infd off size fin user : ℕ) → W → Outcome (Step W)
  sendfile_to infd off size fin user w =
      commit_raw realloc os o fd (fill_sendfile infd off size ++ fill_finalize fin user) w

  unfoldable pub hsendfile : (header header_size infd off size fin user : ℕ) → W → Outcome (Step W)
  hsendfile header header_size infd off size fin user w =
      commit_raw realloc os o fd
        (fill_mem header header_size ++ (fill_sendfile infd off size ++ fill_finalize fin user)) w

  unfoldable pub hvsendfile : List Iovec → (infd off size fin user : ℕ) → W → Outcome (Step W)
  hvsendfile header infd off size fin user w =
      commit_raw realloc os o fd
        (fill_iovec header ++ (fill_sendfile infd off size ++ fill_finalize fin user)) w
