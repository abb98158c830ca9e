-- ===== src/Out/Drain.antt =====
-- The event loop calls `out::write_event` (mpsrc/wavy_out.cc) as often as the kernel reports that a
-- descriptor can be written: the buffer of the descriptor is emptied.
use mpio.Prelude.{
  ℕ, zero, suc, ◌<◌, ◌≡◌, ◌≢◌, refl, sym, ap, ◌∙◌, List, [], ◌∷◌, ◌++◌, append-nil, length-append,
  true, false, inl, inr, length, if◌then◌else◌, arith,
}
use mpio.Memory.{Outcome, returned, ◌>>=◌}
use mpio.Os.{Os, IsLawful, Answers}
use mpio.Xfer.Command.{Command, AllSome}
use mpio.Xfer.Items.{items_all}
use mpio.Xfer.Buffer.{empty}
use mpio.Out.{Out, Event, ident, Step, write_event}
use mpio.Out.Valid.{IsValid, IsValid-empty}
use mpio.Out.Flush.{Moved, write_event-Moved}

-- At most `k` reports of the event `e`, and none when the buffer is empty.
unfoldable pub serve : {W : Type 0} → Os W → ℕ → Out → Event → W → Outcome (Step W)
serve os zero o e w = returned (record { out = o; world = w; log = []; result = false })
serve os (suc k) o e w = write_event os o e w >>= λ s.
    if empty (s.out.fdctx (ident e))
    then returned s
    else (serve os k s.out e s.world >>= λ t. returned (record t { log = s.log ++ t.log }))

-- Everything that the buffer of `fd` held is done, in order; it is empty; the other descriptors have
-- what they had.
pub record Emptied {W : Type 0} (n : ℕ) (cmds : ℕ → List Command) (fd : ℕ) (o : Outcome (Step W))
    : Type 0 where
  pub step : Step W
  pub returns : o ≡ returned step
  pub after : ℕ → List Command
  pub valid : IsValid n after step.out
  pub others : (j : ℕ) → fd ≢ j → after j ≡ cmds j
  pub emptied : after fd ≡ []
  pub all : step.log ≡ items_all (cmds fd)

module _ {W : Type 0} (os : Os W) (lawful : IsLawful os) (answers : Answers ⊥ os) (n : ℕ) where
  -- The last report, and one that leaves something.
  Emptied-last :
      (cmds : ℕ → List Command) (fd : ℕ) (k : ℕ) (e : Event) (o : Outcome (Step W))
      → ident e ≡ fd
      → (m : Moved true ⊥ n cmds fd o) → m.served.after fd ≡ []
      → Emptied n cmds fd (
          o >>= λ s.
          if empty (s.out.fdctx (ident e))
          then returned s
          else (serve os k s.out e s.world >>= λ t. returned (record t { log = s.log ++ t.log })))
  Emptied-last cmds fd k e o i m none_left =
      rw
        (
          m.served.returns,
          i,
          IsValid-empty n m.served.after m.served.step.out m.served.valid fd [] none_left,
        )
        (record {
          step = m.served.step;
          returns = refl;
          after = m.served.after;
          valid = m.served.valid;
          others = m.served.others;
          emptied = none_left;
          all =
              sym (append-nil m.served.step.log)
              ∙ ap (λ c. m.served.step.log ++ items_all c) (sym none_left)
              ∙ sym m.kept;
        })

  Emptied-more :
      (cmds : ℕ → List Command) (k : ℕ) (e : Event) (o : Outcome (Step W))
      (m : Moved true ⊥ n cmds (ident e) o) (c : Command) (cs : List Command)
      → m.served.after (ident e) ≡ c ∷ cs
      → Emptied n m.served.after (ident e) (serve os k m.served.step.out e m.served.step.world)
      → Emptied n cmds (ident e) (
          o >>= λ s.
          if empty (s.out.fdctx (ident e))
          then returned s
          else (serve os k s.out e s.world >>= λ t. returned (record t { log = s.log ++ t.log })))
  Emptied-more cmds k e o m c cs left r =
      rw
        (
          m.served.returns,
          IsValid-empty n m.served.after m.served.step.out m.served.valid (ident e) (c ∷ cs) left,
          r.returns,
        )
        (record {
          step = record r.step { log = m.served.step.log ++ r.step.log };
          returns = refl;
          after = r.after;
          valid = r.valid;
          others = λ j d. r.others j d ∙ m.served.others j d;
          emptied = r.emptied;
          all = ap (◌++◌ m.served.step.log) r.all ∙ sym m.kept;
        })

  -- A report, before those that the recursion is about: what is left is shorter.
  Emptied-step :
      (cmds : ℕ → List Command) (k : ℕ) (e : Event) (o : Outcome (Step W))
      (m : Moved true ⊥ n cmds (ident e) o) (left : List Command)
      → m.served.after (ident e) ≡ left
      → length (items_all (cmds (ident e))) < suc k
      → (m.served.after (ident e) ≢ []
          → AllSome (m.served.after (ident e))
          → length (items_all (m.served.after (ident e))) < k
          → Emptied n m.served.after (ident e) (serve os k m.served.step.out e m.served.step.world))
      → Emptied n cmds (ident e) (
          o >>= λ s.
          if empty (s.out.fdctx (ident e))
          then returned s
          else (serve os k s.out e s.world >>= λ t. returned (record t { log = s.log ++ t.log })))
  Emptied-step cmds k e o m [] l enough ih = Emptied-last cmds (ident e) k e o refl m l
  Emptied-step cmds k e o m (c ∷ cs) l enough ih = Emptied-more cmds k e o m c cs l (
      ih (λ z. absurd (cc)) m.some_left
        (elim m.advances [
          | inl none_left ↦ absurd (cc)
          | inr some_done ↦ elim some_done [
            | inl d ↦ omega (
              arith,
              d,
              enough,
              ap length m.kept,
              length-append m.served.step.log (items_all (m.served.after (ident e))),
            )
            | inr b ↦ absurd b
          ]
        ]))

  -- Where the kernel takes some of each request that is not empty, as many reports as the buffer has
  -- items, and one more, empty the buffer of a watched descriptor: every byte is sent and every
  -- finalizer called, in order.
  pub serve-Emptied :
      (k : ℕ) (cmds : ℕ → List Command) (o : Out) (e : Event) (w : W)
      → IsValid n cmds o
      → ident e < n
      → cmds (ident e) ≢ []
      → AllSome (cmds (ident e))
      → length (items_all (cmds (ident e))) < k
      → Emptied n cmds (ident e) (serve os k o e w)
  unfolding serve
  serve-Emptied zero cmds o e w v lt ne full enough = absurd (omega (arith, enough))
  serve-Emptied (suc k) cmds o e w v lt ne full enough =
      let m : Moved true ⊥ n cmds (ident e) (write_event os o e w) =
        write_event-Moved os lawful n cmds o v e lt ne true ⊥ w answers full in
      Emptied-step cmds k e (write_event os o e w) m (m.served.after (ident e)) refl enough
        (λ some_of some_left less.
          serve-Emptied k m.served.after m.served.step.out e m.served.step.world m.served.valid lt
            some_of some_left less)
