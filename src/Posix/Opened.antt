-- ===== src/Posix/Opened.antt =====
-- Which descriptors a chain of calls leaves open: the new one if it succeeds, none if it fails.
use mpio.Prelude.{ℕ, Bool, ◌≡◌, refl, ◌∙◌, arith}
use mpio.Os.{Reply, Errno}
use mpio.Posix.{Posix, Create, Request, SameOpen, Opened, IsLawful, or_close, or_fail}

-- What a routine that makes a descriptor leaves: a new open one, or an error and none.
abbrev pub Made : {W : Type 0} → (W → ℕ → Bool) → W → Reply × W → Type 0
Made is_open w (Reply.done fd, w') = Opened is_open fd w w'
Made is_open w (Reply.failed e, w') = SameOpen is_open w w'

module _ {W : Type 0} (os : Posix W) (is_open : W → ℕ → Bool) (lawful : IsLawful os is_open) where
  open lawful use {create_done, create_failed, request_keeps, close_closes}

  pub Opened-SameOpen :
      (fd : ℕ) (w w' w'' : W)
      → Opened is_open fd w w'
      → SameOpen is_open w' w''
      → Opened is_open fd w w''
  Opened-SameOpen fd w w' w'' (new, o) same = (new, λ d. same d ∙ o d)

  -- Closing the new descriptor leaves what was open before.
  pub close-Opened :
      (fd : ℕ) (w w' : W) → Opened is_open fd w w' → SameOpen is_open w (os.close w' fd)
  close-Opened fd w w' (new, o) d = close_closes w' fd d ∙ ground (arith, o d, new)

  or_fail-Made :
      (w : W) (r : Reply × W) (rest : ℕ → W → Reply × W)
      → ((fd : ℕ) → r.0 ≡ Reply.done fd → Opened is_open fd w r.1)
      → ((e : Errno) → r.0 ≡ Reply.failed e → SameOpen is_open w r.1)
      → ((fd : ℕ) (w' : W) → Opened is_open fd w w' → Made is_open w (rest fd w'))
      → Made is_open w (or_fail r rest)
  or_fail-Made w (Reply.done fd, w') rest ok bad h = h fd w' (ok fd refl)
  or_fail-Made w (Reply.failed e, w') rest ok bad h = bad e refl

  -- A routine that makes a descriptor and goes on with it.
  pub create-Made :
      (w : W) (c : Create) (rest : ℕ → W → Reply × W)
      → ((fd : ℕ) (w' : W) → Opened is_open fd w w' → Made is_open w (rest fd w'))
      → Made is_open w (or_fail (os.create w c) rest)
  create-Made w c rest h =
      or_fail-Made w (os.create w c) rest (create_done w c) (create_failed w c) h

  -- The same after any step that keeps what is open.
  pub close-Made :
      (fd : ℕ) (w w' : W) (r : Reply × W) (rest : W → Reply × W)
      → Opened is_open fd w w'
      → SameOpen is_open w' r.1
      → ((w'' : W) → Opened is_open fd w w'' → Made is_open w (rest w''))
      → Made is_open w (or_close os fd r rest)
  close-Made fd w w' (Reply.done n, w'') rest o same h = h w'' (Opened-SameOpen fd w w' w'' o same)
  close-Made fd w w' (Reply.failed e, w'') rest o same h =
      close-Opened fd w w'' (Opened-SameOpen fd w w' w'' o same)

  -- A routine that closes the new descriptor where a call on it fails.
  pub or_close-Made :
      (fd : ℕ) (w w' : W) (on : ℕ) (q : Request) (rest : W → Reply × W)
      → Opened is_open fd w w'
      → ((w'' : W) → Opened is_open fd w w'' → Made is_open w (rest w''))
      → Made is_open w (or_close os fd (os.request w' on q) rest)
  or_close-Made fd w w' on q rest o h =
      close-Made fd w w' (os.request w' on q) rest o (request_keeps w' on q) h
