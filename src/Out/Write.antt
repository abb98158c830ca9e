-- ===== src/Out/Write.antt =====
-- `out::write` (mpsrc/wavy_out.cc): one piece of memory, sent at once as far as it goes.
use mpio.Prelude.{
  ℕ, ◌+◌, ◌-◌, ◌^◌, ◌≤◌, ◌<◌, ◌≡◌, refl, sym, ap, ◌∙◌, List, [], ◌∷◌, ◌++◌, append-nil, Bool, true,
  false, Bool-cases, inl, inr, leb, ◌==◌, arith,
}
use mpio.Os.{Reply, is_transient, Os, IsLawful, Fine, Answers}
use mpio.Xfer.Command.{Command, iovec, AllSome}
use mpio.Xfer.Ran.{When, When-map, When-both}
use mpio.Xfer.Items.{Item, mem, range, items, items_vec, items_all, range-split}
use mpio.Xfer.Buffer.{Xfer, push_write}
use mpio.Xfer.Push.{Holds, IsSmall, Returns, push-Returns, push_write-eq-push_writev}
use mpio.Out.{Out, queue_write, after_write, write}
use mpio.Out.Valid.{IsValid, IsValid-empty, IsValid-Holds}
use mpio.Out.Accept.{Accepted, Taken, items_all-append, Taken-more, Taken-watch, Taken-none}

-- The command for one piece of memory.
abbrev piece : ℕ → ℕ → Command
piece buf size = iovec (record { iov_base = buf; iov_len = size } ∷ [])

items_all-piece : (buf size : ℕ) → items_all (piece buf size ∷ []) ≡ range mem buf size
unfolding items items_vec
items_all-piece buf size = append-nil (range mem buf size ++ []) ∙ append-nil (range mem buf size)

module _ (realloc : ℕ → Bool) (ample : (n : ℕ) → realloc n ≡ true) where
  push_write-Returns :
      (cs : List Command) (x : Xfer) (buf size : ℕ)
      → Holds cs x
      → IsSmall x
      → buf + size < 2 ^ 64
      → Returns (cs ++ (piece buf size ∷ [])) (push_write realloc x buf size)
  push_write-Returns cs x buf size h small fit =
      rw (push_write-eq-push_writev realloc ample x buf size)
        (push-Returns realloc ample cs x (piece buf size) h small (omega arith))

module _ (realloc : ℕ → Bool) (ample : (n : ℕ) → realloc n ≡ true) {W : Type 0} (live : Bool)
    (blocked : Type 0) (os : Os W) (lawful : IsLawful os) (n : ℕ) (cmds : ℕ → List Command)
    (o : Out) (v : IsValid n cmds o) (fd : ℕ) (lt : fd < n) (small : IsSmall (o.fdctx fd)) where
  queue_write-Taken :
      (buf size : ℕ) (new log : List Item) (w : W)
      → cmds fd ≡ []
      → buf + size < 2 ^ 64
      → new ≡ log ++ range mem buf size
      → When live (0 < size)
      → Taken live n cmds fd new [] (queue_write realloc os o fd buf size log w)
  queue_write-Taken buf size new log w e fit order full =
      let r : Returns (piece buf size ∷ []) (push_write realloc (o.fdctx fd) buf size) =
        push_write-Returns realloc ample [] (o.fdctx fd) buf size (IsValid-Holds n cmds o v fd [] e)
          small fit in
      rw r.returns (
        Taken-watch live n cmds o v fd lt w new log (piece buf size) [] r.buffer e r.holds
          (rw (items_all-piece buf size) order) (When-map live (λ p. (omega (arith, p), tt)) full))

  after_write-Taken :
      (buf size : ℕ) (r : Reply × W)
      → cmds fd ≡ []
      → buf + size < 2 ^ 64
      → ((k : ℕ) → r.0 ≡ Reply.done k → k ≤ size)
      → When live (0 < size)
      → When live (Fine blocked r.0)
      → (lost : List Item) × Taken live n cmds fd
          (range mem buf size)
          lost
          (after_write realloc os o fd buf size r)
  unfolding after_write
  after_write-Taken buf size (Reply.failed err, w) e fit le full fine =
      elim (Bool-cases (is_transient err)) [
        | inl again ↦ rw again ([], queue_write-Taken buf size _ [] w e fit refl full)
        | inr error ↦ rw error (
          _,
          Taken-none live n cmds o v fd lt _ _ [] _ e refl
              (When-map live (λ p. absurd (ground (arith, p.0, error))) fine),
        )
      ]
  after_write-Taken buf size (Reply.done wl, w) e fit le full fine = elim (Bool-cases (wl == 0)) [
    | inl closed ↦ rw closed (
      _,
      Taken-none live n cmds o v fd lt _ _ [] _ e refl
          (When-map live (λ p. absurd (ground (arith, p, closed))) fine),
    )
    | inr some_of ↦ elim (Bool-cases (leb size wl)) [
      | inl whole ↦
          let all_of : wl ≡ size = ground (arith, le wl refl) in
          rw (some_of, whole, all_of)
            (
              [],
              Taken-none live n cmds o v fd lt w _ _ [] e (sym (append-nil _))
                  (When-map live (λ _. refl) full),
            )
      | inr part ↦
          rw (some_of, part)
            (
              [],
              queue_write-Taken (buf + wl) (size - wl) _ (range mem buf wl) w e (ground arith)
                  (range-split mem buf wl (size - wl) size (ground arith))
                  (When-map live (λ _. ground arith) full),
            )
    ]
  ]

  write-old :
      (old : List Command) (buf size : ℕ) (w : W)
      → cmds fd ≡ old
      → buf + size < 2 ^ 64
      → When live (Answers blocked os)
      → When live (AllSome (cmds fd))
      → When live (0 < size)
      → (lost : List Item) × Taken live n cmds fd
          (range mem buf size)
          lost
          (write realloc os o fd buf size w)
  unfolding write
  write-old [] buf size w e fit answers held full = rw (IsValid-empty n cmds o v fd [] e) (
      after_write-Taken buf size (os.write w fd buf size) e fit (lawful.write_le w fd buf size) full
        (When-both live (λ a p. a.write_fine w fd buf size p) answers full))
  write-old (c ∷ old) buf size w e fit answers held full =
      let r : Returns ((c ∷ old) ++ (piece buf size ∷ []))
          (push_write realloc (o.fdctx fd) buf size) =
        push_write-Returns realloc ample (c ∷ old) (o.fdctx fd) buf size
          (IsValid-Holds n cmds o v fd (c ∷ old) e) small fit in
      rw (IsValid-empty n cmds o v fd (c ∷ old) e) (
        rw r.returns (
          [],
          Taken-more live n cmds o v fd lt w (range mem buf size) [] c old (piece buf size ∷ [])
              r.buffer e r.holds
              (sym (
                items_all-append (c ∷ old) (piece buf size ∷ [])
                ∙ ap (◌++◌ (items_all (c ∷ old))) (items_all-piece buf size)))
              held (When-map live (λ p. (omega (arith, p), tt)) full),
        ))

  -- The same, and that nothing is missing where the kernel answers.
  pub write-Taken :
      (buf size : ℕ) (w : W)
      → buf + size < 2 ^ 64
      → When live (Answers blocked os)
      → When live (AllSome (cmds fd))
      → When live (0 < size)
      → (lost : List Item) × Taken live n cmds fd
          (range mem buf size)
          lost
          (write realloc os o fd buf size w)
  write-Taken buf size w fit answers held full =
      write-old (cmds fd) buf size w refl fit answers held full

module _ (realloc : ℕ → Bool) (ample : (n : ℕ) → realloc n ≡ true) {W : Type 0} (os : Os W)
    (lawful : IsLawful os) (n : ℕ) (cmds : ℕ → List Command) (o : Out) (v : IsValid n cmds o)
    (fd : ℕ) (lt : fd < n) (small : IsSmall (o.fdctx fd)) where
  -- `write` keeps the invariant, and the bytes that it is given are sent or kept in order, where
  -- memory is ample.
  pub write-Accepted :
      (buf size : ℕ) (w : W)
      → buf + size < 2 ^ 64
      → (lost : List Item) × Accepted n cmds fd
          (range mem buf size)
          lost
          (write realloc os o fd buf size w)
  write-Accepted buf size w fit =
      let t =
        write-Taken realloc ample false Unit os lawful n cmds o v fd lt small buf size w fit tt tt
          tt in
      (t.0, t.1.accepted)
