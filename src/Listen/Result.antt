-- ===== src/Listen/Result.antt =====
-- Which descriptors `loop::listen` and a read of listen_handler leave open (mpsrc/wavy_listen.cc).
use mpio.Prelude.{
  ℕ, zero, suc, List, [], ◌∷◌, ◌≡◌, refl, ap, ◌∙◌, Option, some, Bool, true, false, Bool-cases, inl,
  inr, ◌==◌, if◌then◌else◌, arith,
}
use mpio.Os.{Reply, Errno, is_transient}
use mpio.Posix.{Posix, Create, Request, SameOpen, Opened, IsLawful, or_close}
use mpio.Posix.Opened.{Made, Opened-SameOpen, close-Opened, create-Made, or_close-Made}
use mpio.Kernel.{add_fd, epollin}
use mpio.Listen.{Ended, given, accepted, on_read, add_handler, listen}

module _ {W : Type 0} (os : Posix W) (is_open : W → ℕ → Bool) (lawful : IsLawful os is_open)
    (ep : ℕ) where
  twice-Made :
      (w w' : W) (fd : ℕ) (r : Reply × W) (rest last : W → Reply × W)
      → Opened is_open fd w w'
      → SameOpen is_open w' r.1
      → ((w'' : W) → Opened is_open fd w w'' → Made is_open w (or_close os fd (rest w'') last))
      → Made is_open w (or_close os fd (or_close os fd r rest) last)
  twice-Made w w' fd (Reply.done n, w'') rest last o same h =
      h w'' (Opened-SameOpen os is_open lawful fd w w' w'' o same)
  twice-Made w w' fd (Reply.failed e, w'') rest last o same h =
      let once : SameOpen is_open w (os.close w'' fd) =
        close-Opened os is_open lawful fd w w''
          (Opened-SameOpen os is_open lawful fd w w' w'' o same) in
      λ d. lawful.close_closes (os.close w'' fd) fd d ∙ ground (arith, once d, o.0)

  add_handler-Made :
      (fd : ℕ) (w w' : W)
      → Opened is_open fd w w'
      → Made is_open w (or_close os fd (add_handler os ep fd w') (λ w. (Reply.done fd, w)))
  unfolding add_handler add_fd
  add_handler-Made fd w w' o =
      twice-Made w w' fd (os.request w' fd Request.set_nonblock)
        (λ w. (Reply.done fd, (add_fd os ep fd epollin w).1)) (λ w. (Reply.done fd, w)) o
        (lawful.request_keeps w' fd Request.set_nonblock)
        (λ w'' o. Opened-SameOpen os is_open lawful fd w w'' _ o (lawful.request_keeps w'' ep _))

  -- `listen` returns a new open socket, or throws with every descriptor that it made closed.
  pub listen-Made :
      (family type protocol addr backlog : ℕ) (w : W)
      → Made is_open w (listen os ep family type protocol addr backlog w)
  unfolding listen
  listen-Made family type protocol addr backlog w = create-Made os is_open lawful w _ _ (λ fd w1 o.
      or_close-Made os is_open lawful fd w w1 fd _ _ o (λ w2 o.
        or_close-Made os is_open lawful fd w w2 fd _ _ o (λ w3 o.
          or_close-Made os is_open lawful fd w w3 fd _ _ o (λ w4 o. add_handler-Made fd w w4 o))))

abbrev pub is_in : ℕ → List ℕ → Bool
is_in d [] = false
is_in d (s ∷ ss) = if d == s then true else is_in d ss

module _ {W : Type 0} (os : Posix W) (accepts : Errno → W → W) (callback : ℕ → W → Bool × W) where
  -- From a world, these sockets are accepted and the callback returns for them, in this order; each
  -- other one is closed; and an accept fails.
  pub data Kept (fd : ℕ) : W → List ℕ → Type 0 where
    fails : {w : W} (e : Errno) → (os.create w (Create.accept fd)).0 ≡ Reply.failed e → Kept fd w []
    keeps :
        {w w' w'' : W} {ss : List ℕ} (s : ℕ)
        → os.create w (Create.accept fd) ≡ (Reply.done s, w')
        → callback s w' ≡ (true, w'')
        → Kept fd w'' ss
        → Kept fd w (s ∷ ss)
    closes :
        {w w' w'' : W} {ss : List ℕ} (s : ℕ)
        → os.create w (Create.accept fd) ≡ (Reply.done s, w')
        → callback s w' ≡ (false, w'')
        → Kept fd (os.close w'' s) ss
        → Kept fd w ss

  -- A read ends; what is open then is what was open and the sockets for which the callback returned.
  pub record Reading (is_open : W → ℕ → Bool) (fd : ℕ) (w : W) (o : Option (Ended × W))
      : Type 0 where
    pub ended : Ended
    pub world : W
    pub sockets : List ℕ
    pub returns : o ≡ some (ended, world)
    pub kept : Kept fd w sockets
    pub opens : (d : ℕ) → is_open world d ≡ (if is_in d sockets then true else is_open w d)

  -- The accepts on the descriptor end within so many rounds: one of them fails.
  abbrev pub EndsWithin : ℕ → ℕ → W → Type 0
  EndsWithin zero fd w = ⊥
  EndsWithin (suc rounds) fd w =
      (sock : ℕ)
      → (os.create w (Create.accept fd)).0 ≡ Reply.done sock
      → EndsWithin rounds fd
          (given os accepts callback sock (callback sock (os.create w (Create.accept fd)).1))

  module _ (is_open : W → ℕ → Bool) (lawful : IsLawful os is_open)
      (called : (s : ℕ) (w : W) → SameOpen is_open w (callback s w).1)
      (told : (e : Errno) (w : W) → SameOpen is_open w (accepts e w)) where
    given-Reading :
        (fd : ℕ) (w w' : W) (sock : ℕ) (r : Bool × W) (o : Option (Ended × W))
        → os.create w (Create.accept fd) ≡ (Reply.done sock, w')
        → Opened is_open sock w w'
        → SameOpen is_open w' r.1
        → callback sock w' ≡ r
        → Reading is_open fd (given os accepts callback sock r) o
        → Reading is_open fd w o
    given-Reading fd w w' sock (true, w'') o new_one (new, open_) same e r = record {
      ended = r.ended;
      world = r.world;
      sockets = sock ∷ r.sockets;
      returns = r.returns;
      kept = keeps sock new_one e r.kept;
      opens = λ d. r.opens d ∙ ground (arith, same d, open_ d);
    }
    given-Reading fd w w' sock (false, w'') o new_one (new, open_) same e r = record {
      ended = r.ended;
      world = r.world;
      sockets = r.sockets;
      returns = r.returns;
      kept = closes sock new_one e r.kept;
      opens = λ d. r.opens d ∙ ground (arith, lawful.close_closes w'' sock d, same d, open_ d, new);
    }

    accepted-Reading :
        (fd : ℕ) (w : W) (rest : W → Option (Ended × W)) (r : Reply × W)
        → os.create w (Create.accept fd) ≡ r
        → ((s : ℕ) → r.0 ≡ Reply.done s → Opened is_open s w r.1)
        → ((e : Errno) → r.0 ≡ Reply.failed e → SameOpen is_open w r.1)
        → ((s : ℕ)
            → r.0 ≡ Reply.done s
            → Reading is_open fd
                (given os accepts callback s (callback s r.1))
                (rest (given os accepts callback s (callback s r.1))))
        → Reading is_open fd w (accepted os accepts callback rest r)
    unfolding accepted
    accepted-Reading fd w rest (Reply.done s, w') q ok bad more =
        given-Reading fd w w' s (callback s w') _ q (ok s refl) (called s w') refl (more s refl)
    accepted-Reading fd w rest (Reply.failed e, w') q ok bad more =
        let stop : Kept fd w [] = fails e (ap (λ p. p.0) q) in
        elim (Bool-cases (is_transient e)) [
          | inl t ↦ rw t (record {
            ended = Ended.drained;
            world = w';
            sockets = [];
            returns = refl;
            kept = stop;
            opens = bad e refl;
          })
          | inr f ↦ rw f (record {
            ended = Ended.thrown;
            world = accepts e w';
            sockets = [];
            returns = refl;
            kept = stop;
            opens = λ d. told e w' d ∙ bad e refl d;
          })
        ]

    -- Where an accept fails within the rounds and the callback itself opens and closes nothing, a
    -- read ends, and what is open then is what was open before and, of the sockets that it
    -- accepted, those for which the callback returned; each other one is closed.
    pub on_read-Reading :
        (rounds fd : ℕ) (w : W)
        → EndsWithin rounds fd w
        → Reading is_open fd w (on_read os accepts callback rounds fd w)
    unfolding on_read
    on_read-Reading zero fd w ends = absurd ends
    on_read-Reading (suc rounds) fd w ends =
        accepted-Reading fd w _ _ refl (lawful.create_done w _) (lawful.create_failed w _)
          (λ s e. on_read-Reading rounds fd _ (ends s e))
