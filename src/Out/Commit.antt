-- ===== src/Out/Commit.antt =====
-- `out::commit_raw` and `out::commit` (mpsrc/wavy_out.cc): commands that a caller has put together.
use mpio.Prelude.{
  ℕ, ◌^◌, ◌≤◌, ◌<◌, ◌≡◌, ◌≢◌, refl, sym, ap, List, [], ◌∷◌, ◌++◌, Bool, true, false, Bool-cases,
  inl, inr, length, if◌then◌else◌, arith,
}
use mpio.Memory.{Outcome, returned, ◌>>=◌}
use mpio.Os.{Os, IsLawful, Answers}
use mpio.Xfer.Command.{Command, fill_all, AllFit, AllSome}
use mpio.Xfer.Items.{Item, items_all}
use mpio.Xfer.Execute.{Run, execute}
use mpio.Xfer.Ran.{Executed, When, When-map, When-always, Ran}
use mpio.Xfer.Order.{execute-Ran}
use mpio.Xfer.Buffer.{Xfer, push_xfraw, migrate, try_write, Written}
use mpio.Xfer.Push.{Holds, IsSmall, Returns, push_xfraw-Returns}
use mpio.Xfer.Ops.{Migrated, migrate-Migrated, Flushed, Drained, try_write-Drained}
use mpio.Out.{Out, Step, store, watch, commit_raw, commit}
use mpio.Out.Valid.{IsValid, IsValid-empty, IsValid-Holds}
use mpio.Out.Accept.{Accepted, Taken, items_all-append, Taken-more, Taken-watch, Taken-none}

module _ (realloc : ℕ → Bool) (ample : (n : ℕ) → realloc n ≡ true) {W : Type 0} (live : Bool)
    (blocked : Type 0) (os : Os W) (lawful : IsLawful os) (n : ℕ) (cmds : ℕ → List Command)
    (o : Out) (v : IsValid n cmds o) (fd : ℕ) (lt : fd < n) (small : IsSmall (o.fdctx fd)) where
  -- The remaining commands are kept: the buffer was empty.
  keep :
      (new log : List Item) (w : W) (c : Command) (cs : List Command) (out : Outcome Xfer)
      → cmds fd ≡ []
      → Returns (c ∷ cs) out
      → new ≡ log ++ items_all (c ∷ cs)
      → When live (AllSome (c ∷ cs))
      → Taken live n cmds fd new [] (
          out >>= λ x.
          returned (record { out = watch (store o fd x) fd; world = w; log = log; result = false }))
  keep new log w c cs out e r order full =
      rw r.returns (Taken-watch live n cmds o v fd lt w new log c cs r.buffer e r.holds order full)

  commit_raw-rest :
      (cs : List Command) (w : W) (run : Run W) (remaining : List Command)
      → cmds fd ≡ []
      → run.left ≡ fill_all remaining
      → AllFit remaining
      → length (fill_all remaining) ≤ 2 ^ 62
      → items_all cs ≡ run.log ++ items_all remaining
      → (run.cont ≡ true → remaining ≢ [])
      → When live (AllSome remaining)
      → When live (run.cont ≡ false → remaining ≡ [])
      → (lost : List Item) × Taken live n cmds fd (items_all cs) lost (
          if run.cont
          then (push_xfraw realloc (o.fdctx fd) run.left >>= λ x. returned (record {
            out = watch (store o fd x) fd;
            world = run.world;
            log = run.log;
            result = false;
          }))
          else returned (record { out = o; world = run.world; log = run.log; result = false }))
  commit_raw-rest cs w run [] e l f le order pending full ends = elim (Bool-cases run.cont) [
    | inl more ↦ absurd (pending more refl)
    | inr stop ↦ simp stop (
      [],
      Taken-none live n cmds o v fd lt run.world (items_all cs) run.log [] e order
          (When-map live (λ _. refl) full),
    )
  ]
  commit_raw-rest cs w run (c ∷ rest) e l f le order pending full ends =
      elim (Bool-cases run.cont) [
        | inl more ↦ simp more (
          [],
          keep (items_all cs) run.log run.world c rest (push_xfraw realloc (o.fdctx fd) run.left) e
              (rw l (
                push_xfraw-Returns realloc ample [] (c ∷ rest) (o.fdctx fd)
                  (IsValid-Holds n cmds o v fd [] e) small f le))
              order full,
        )
        | inr stop ↦ simp stop (
          items_all (c ∷ rest),
          Taken-none live n cmds o v fd lt run.world (items_all cs) run.log (items_all (c ∷ rest)) e
              order (When-map live (λ h. ap items_all (h stop)) ends),
        )
      ]

  commit_raw-old :
      (cs old : List Command) (w : W)
      → cmds fd ≡ old
      → AllFit cs
      → length (fill_all cs) ≤ 2 ^ 62
      → When live (Answers blocked os)
      → When live (AllSome (cmds fd))
      → When live (AllSome cs)
      → (lost : List Item) × Taken live n cmds fd
          (items_all cs)
          lost
          (commit_raw realloc os o fd (fill_all cs) w)
  unfolding commit_raw
  commit_raw-old cs (c ∷ old) w e f le answers held full =
      let r : Returns ((c ∷ old) ++ cs) (push_xfraw realloc (o.fdctx fd) (fill_all cs)) =
        push_xfraw-Returns realloc ample (c ∷ old) cs (o.fdctx fd)
          (IsValid-Holds n cmds o v fd (c ∷ old) e) small f le in
      rw (IsValid-empty n cmds o v fd (c ∷ old) e) (
        rw r.returns (
          [],
          Taken-more live n cmds o v fd lt w (items_all cs) [] c old cs r.buffer e r.holds
              (sym (items_all-append (c ∷ old) cs)) held full,
        ))
  commit_raw-old cs [] w e f le answers held full =
      let a : Ran live blocked cs (execute os fd (fill_all cs) w) =
        execute-Ran live blocked os lawful answers fd cs w f full in
      let x : Executed cs (execute os fd (fill_all cs) w) = a.executed in
      rw (IsValid-empty n cmds o v fd [] e) (
        rw x.returns (
          commit_raw-rest cs w x.run x.remaining e x.left x.fit
            (omega (arith, x.shrinks, ap length x.left)) x.order x.pending a.some_left a.finishes))

  -- The same, and that nothing is missing where the kernel answers.
  pub commit_raw-Taken :
      (cs : List Command) (w : W)
      → AllFit cs
      → length (fill_all cs) ≤ 2 ^ 62
      → When live (Answers blocked os)
      → When live (AllSome (cmds fd))
      → When live (AllSome cs)
      → (lost : List Item) × Taken live n cmds fd
          (items_all cs)
          lost
          (commit_raw realloc os o fd (fill_all cs) w)
  commit_raw-Taken cs w f le answers held full =
      commit_raw-old cs (cmds fd) w refl f le answers held full

module _ (realloc : ℕ → Bool) (ample : (n : ℕ) → realloc n ≡ true) {W : Type 0} (os : Os W)
    (lawful : IsLawful os) (n : ℕ) (cmds : ℕ → List Command) (o : Out) (v : IsValid n cmds o)
    (fd : ℕ) (lt : fd < n) (small : IsSmall (o.fdctx fd)) where
  -- `commit_raw` keeps the invariant, and the commands that it is given are sent or kept in order,
  -- where memory is ample.
  pub commit_raw-Accepted :
      (cs : List Command) (w : W)
      → AllFit cs
      → length (fill_all cs) ≤ 2 ^ 62
      → (lost : List Item) × Accepted n cmds fd
          (items_all cs)
          lost
          (commit_raw realloc os o fd (fill_all cs) w)
  commit_raw-Accepted cs w f le =
      let t =
        commit_raw-Taken realloc ample false Unit os lawful n cmds o v fd lt small cs w f le tt tt
          tt in
      (t.0, t.1.accepted)

-- What `commit` returns: the caller's buffer holds the commands `rest`, which are what is not taken; there
-- are none where the kernel answers each request that is not empty and no command is.
pub record Committed {W : Type 0} (live : Bool) (n : ℕ) (cmds : ℕ → List Command) (fd : ℕ)
    (cs : List Command) (o : Outcome (Step W × Xfer)) : Type 0 where
  pub step : Step W
  pub buffer : Xfer
  pub returns : o ≡ returned (step, buffer)
  pub rest : List Command
  pub kept : Holds rest buffer
  pub accepted : Accepted n cmds fd (items_all cs) (items_all rest) (returned step)
  pub all_taken : When live (rest ≡ [])

module _ (realloc : ℕ → Bool) (ample : (n : ℕ) → realloc n ≡ true) {W : Type 0} (live : Bool)
    (blocked : Type 0) (os : Os W) (lawful : IsLawful os) (n : ℕ) (cmds : ℕ → List Command)
    (o : Out) (v : IsValid n cmds o) (fd : ℕ) (lt : fd < n) (small : IsSmall (o.fdctx fd)) where
  commit-Migrated :
      (cs ds : List Command) (step : Xfer → Step W) (out : Outcome (Xfer × Xfer))
      → Migrated ds out
      → ((x : Xfer) → Holds ds x → Accepted n cmds fd (items_all cs) [] (returned (step x)))
      → Committed live n cmds fd cs (out >>= λ (xf', x). returned (step x, xf'))
  commit-Migrated cs ds step out m a = record {
    step = step m.target;
    buffer = m.source;
    returns = rw m.returns;
    rest = [];
    kept = m.emptied;
    accepted = a m.target m.holds;
    all_taken = When-always live refl;
  }

  commit-stop :
      (cs : List Command) (t : Written W) (remaining : List Command)
      → cmds fd ≡ []
      → Holds remaining t.buffer
      → items_all cs ≡ t.log ++ items_all remaining
      → When live (remaining ≡ [])
      → Committed live n cmds fd cs
          (returned (record { out = o; world = t.world; log = t.log; result = false }, t.buffer))
  commit-stop cs t remaining e h order all = record {
    step = record { out = o; world = t.world; log = t.log; result = false };
    buffer = t.buffer;
    returns = refl;
    rest = remaining;
    kept = h;
    accepted =
        (Taken-none false n cmds o v fd lt t.world (items_all cs) t.log (items_all remaining) e
          order tt).accepted;
    all_taken = all;
  }

  commit-rest :
      (cs : List Command) (t : Written W) (remaining : List Command)
      → cmds fd ≡ []
      → Holds remaining t.buffer
      → IsSmall t.buffer
      → items_all cs ≡ t.log ++ items_all remaining
      → (t.cont ≡ true → remaining ≢ [])
      → When live (t.cont ≡ false → remaining ≡ [])
      → Committed live n cmds fd cs (
          if t.cont
          then (migrate realloc t.buffer (o.fdctx fd) >>= λ (xf', x). returned (
            record { out = watch (store o fd x) fd; world = t.world; log = t.log; result = false },
            xf',
          ))
          else returned
              (record { out = o; world = t.world; log = t.log; result = false }, t.buffer))
  commit-rest cs t [] e h st order pending ends = elim (Bool-cases t.cont) [
    | inl more ↦ absurd (pending more refl)
    | inr stop ↦ simp stop (commit-stop cs t [] e h order (When-always live refl))
  ]
  commit-rest cs t (c ∷ rest) e h st order pending ends = elim (Bool-cases t.cont) [
    | inl more ↦ simp more (
        commit-Migrated cs (c ∷ rest)
          (λ x. record {
            out = watch (store o fd x) fd;
            world = t.world;
            log = t.log;
            result = false;
          })
          (migrate realloc t.buffer (o.fdctx fd))
          (migrate-Migrated realloc ample (c ∷ rest) [] t.buffer (o.fdctx fd) h
            (IsValid-Holds n cmds o v fd [] e) st small)
          (λ x hx.
            (Taken-watch false n cmds o v fd lt t.world (items_all cs) t.log c rest x e hx order
              tt).accepted))
    | inr stop ↦
        simp stop (commit-stop cs t (c ∷ rest) e h order (When-map live (λ h. h stop) ends))
  ]

  commit-old :
      (cs old : List Command) (xf : Xfer) (w : W)
      → cmds fd ≡ old
      → Holds cs xf
      → IsSmall xf
      → When live (Answers blocked os)
      → When live (AllSome cs)
      → Committed live n cmds fd cs (commit realloc os o fd xf w)
  unfolding commit
  commit-old cs (c ∷ old) xf w e h sx answers full = rw (IsValid-empty n cmds o v fd (c ∷ old) e) (
      commit-Migrated cs ((c ∷ old) ++ cs)
        (λ x. record { out = store o fd x; world = w; log = []; result = false })
        (migrate realloc xf (o.fdctx fd))
        (migrate-Migrated realloc ample cs (c ∷ old) xf (o.fdctx fd) h
          (IsValid-Holds n cmds o v fd (c ∷ old) e) sx small)
        (λ x hx.
          (Taken-more false n cmds o v fd lt w (items_all cs) [] c old cs x e hx
            (sym (items_all-append (c ∷ old) cs)) tt tt).accepted))
  commit-old cs [] xf w e h sx answers full =
      let d : Drained live blocked cs xf (try_write os xf fd w) =
        try_write-Drained os lawful live blocked cs xf fd w answers h full in
      let t : Flushed cs xf (try_write os xf fd w) = d.flushed in
      rw (IsValid-empty n cmds o v fd [] e) (
        rw t.returns (
          commit-rest cs t.written t.remaining e t.holds (omega (arith, t.size)) t.order t.pending
            d.finishes))

  -- `commit` keeps the invariant, where memory is ample and both buffers are below 2 ^ 62 bytes;
  -- the commands of the caller's buffer are sent, then kept in the descriptor's buffer, then left
  -- in the caller's buffer, in order, and some are left there only where the descriptor's buffer
  -- is empty. Where the kernel answers each request that is not empty and no command is, none is
  -- left in the caller's buffer.
  pub commit-Committed :
      (cs : List Command) (xf : Xfer) (w : W)
      → Holds cs xf
      → IsSmall xf
      → When live (Answers blocked os)
      → When live (AllSome cs)
      → Committed live n cmds fd cs (commit realloc os o fd xf w)
  commit-Committed cs xf w h sx answers full = commit-old cs (cmds fd) xf w refl h sx answers full
