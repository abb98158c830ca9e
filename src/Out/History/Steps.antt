-- ===== src/Out/History/Steps.antt =====
-- How one call of the class out (mpsrc/wavy_out.cc) changes what was given to a descriptor, what was done
-- for it and what its buffer holds.
use mathlib.Core.Path.{subst}
use mathlib.Core.List.{Sublist, sublist-append_left}
use mathlib.Core.List.Sublist
use mpio.Prelude.{
  ℕ, ◌≡◌, ◌≢◌, refl, sym, ap, ◌∙◌, List, [], ◌∷◌, ◌++◌, append-nil, append_assoc, Bool, false,
  Bool-cases, inl, inr, ◌==◌, ==→eq, arith,
}
use mpio.Memory.{Outcome, returned}
use mpio.Family.{update_self}
use mpio.Xfer.Command.{Command, AllSome}
use mpio.Xfer.Ran.{When, When-map, When-both}
use mpio.Xfer.Items.{Item, mem, file, call, items_all}
use mpio.Xfer.Clear.{calls_of}
use mpio.Out.{Out, Step}
use mpio.Out.Valid.{IsValid}
use mpio.Out.Accept.{Accepted, Taken}
use mpio.Out.Flush.{Served, Moved}
use mpio.Out.History.{behind, Tracked}

returned_inj : {A : Type 0} (a b : A) → returned a ≡ returned b → a ≡ b
returned_inj a b e = cc

calls_of-Sublist : (xs : List Item) → Sublist (calls_of xs) xs
calls_of-Sublist [] = Sublist.refl []
calls_of-Sublist (call fin user ∷ xs) = Sublist.cons-cons (call fin user) (calls_of-Sublist xs)
calls_of-Sublist (mem a ∷ xs) = Sublist.cons (mem a) (calls_of-Sublist xs)
calls_of-Sublist (file infd off ∷ xs) = Sublist.cons (file infd off) (calls_of-Sublist xs)

-- What is done behind `done`, and what follows it, is part of what follows `done`.
behind-Sublist :
    (done log after rest new given : List Item)
    → Sublist (log ++ after) (rest ++ new)
    → Sublist (done ++ rest) given
    → Sublist ((done ++ log) ++ after) (given ++ new)
behind-Sublist done log after rest new given s h =
    subst (λ l. Sublist l (given ++ new)) (sym (append_assoc done log after))
      (Sublist.trans (Sublist.append (Sublist.refl done) s) (
        subst (λ l. Sublist l (given ++ new)) (append_assoc done rest new)
          (Sublist.append h (Sublist.refl new))))

behind_complete :
    (done log after rest new given : List Item)
    → rest ++ new ≡ log ++ after
    → done ++ rest ≡ given
    → (done ++ log) ++ after ≡ given ++ new
behind_complete done log after rest new given s h =
    append_assoc done log after
    ∙ ap (◌++◌ done) (sym s)
    ∙ sym (append_assoc done rest new)
    ∙ ap (λ l. l ++ new) h

-- A statement on each descriptor: of `fd` by one, of the others by another.
each :
    {P : ℕ → Type 0} (fd : ℕ) → P fd → ((i : ℕ) → fd ≢ i → (fd == i) ≡ false → P i) → (i : ℕ) → P i
each {P} fd here others i = elim (Bool-cases (fd == i)) [
  | inl same ↦ subst P (==→eq fd i same) here
  | inr other ↦ others i (ground (arith, other)) other
]

module _ (live : Bool) where
  -- One descriptor gets `new` and does `log`, the others have what they had.
  Tracked-set :
      (n fd : ℕ) (o o' : Out) (given done : ℕ → List Item) (q : Tracked live n o given done)
      (after : ℕ → List Command) (new log : List Item)
      → IsValid n after o'
      → ((j : ℕ) → fd ≢ j → after j ≡ q.queue.pending j)
      → Sublist (log ++ items_all (after fd)) (items_all (q.queue.pending fd) ++ new)
      → When live (AllSome (after fd))
      → When live (items_all (q.queue.pending fd) ++ new ≡ log ++ items_all (after fd))
      → Tracked live n o' (behind given fd new) (behind done fd log)
  Tracked-set n fd o o' given done q after new log v others s full order = record {
    queue = record {
      pending = after;
      valid = v;
      in_order =
          each
            {P = λ j. Sublist (behind done fd log j ++ items_all (after j)) (behind given fd new j)}
            fd
            (rw (update_self, update_self)
              (behind-Sublist (done fd) log (items_all (after fd)) (items_all (q.queue.pending fd))
                new (given fd) s (q.queue.in_order fd)))
            (λ i ne other. rw (other, others i ne) (q.queue.in_order i));
    };
    some_left =
        When-both live {B = (i : ℕ) → AllSome (q.queue.pending i)}
          (λ f all. each {P = λ j. AllSome (after j)} fd f (λ i ne other. rw (others i ne) (all i)))
          full q.some_left;
    complete =
        When-both live {B = (i : ℕ) → done i ++ items_all (q.queue.pending i) ≡ given i}
          (λ e all.
            each {P = λ j. behind done fd log j ++ items_all (after j) ≡ behind given fd new j} fd
              (rw (update_self, update_self)
                (behind_complete (done fd) log (items_all (after fd))
                  (items_all (q.queue.pending fd)) new (given fd) e (all fd)))
              (λ i ne other. rw (other, others i ne) (all i)))
          order q.complete;
  }

  module _ {W : Type 0} (n fd : ℕ) (o : Out) (given done : ℕ → List Item)
      (q : Tracked live n o given done) (t : Step W) where
    pub Taken-Tracked :
        (new lost : List Item) (out : Outcome (Step W))
        → Taken live n q.queue.pending fd new lost out
        → out ≡ returned t
        → Tracked live n t.out (behind given fd new) (behind done fd t.log)
    Taken-Tracked new lost out k e =
        subst (λ s. Tracked live n s.out (behind given fd new) (behind done fd s.log))
          (returned_inj a.step t (sym a.returns ∙ e))
          (Tracked-set n fd o a.step.out given done q a.after new a.step.log a.valid a.others
            (subst (Sublist (a.step.log ++ items_all (a.after fd))) (sym a.order) (
              Sublist.append (Sublist.refl a.step.log)
                (sublist-append_left (items_all (a.after fd)) lost)))
            k.some_left
            (When-map live
              (λ z.
                a.order
                ∙ ap (λ l. a.step.log ++ (items_all (a.after fd) ++ l)) z
                ∙ ap (◌++◌ a.step.log) (append-nil (items_all (a.after fd))))
              k.none_lost))
      where
        a : Accepted n q.queue.pending fd new lost out
        a = k.accepted

    Served-Sublist :
        (out : Outcome (Step W)) (s : Served n q.queue.pending fd out)
        → Sublist (s.step.log ++ items_all (s.after fd)) (items_all (q.queue.pending fd) ++ [])
    Served-Sublist out s = elim s.ends [
      | inl stays ↦ rw (stays.0, stays.2, append-nil, s.order) (Sublist.refl _)
      | inr ends ↦
          rw (ends.0, ends.1, append-nil, append-nil, s.order)
            (Sublist.append (Sublist.refl s.sent) (calls_of-Sublist (items_all s.remaining)))
    ]

    Moved-Tracked :
        {blocked : Type 0} (out : Outcome (Step W))
        → Moved live blocked n q.queue.pending fd out
        → out ≡ returned t
        → Tracked live n t.out (behind given fd []) (behind done fd t.log)
    Moved-Tracked out m e =
        subst (λ u. Tracked live n u.out (behind given fd []) (behind done fd u.log))
          (returned_inj s.step t (sym s.returns ∙ e))
          (Tracked-set n fd o s.step.out given done q s.after [] s.step.log s.valid s.others
            (Served-Sublist out s) m.some_left
            (When-map live (λ k. append-nil (items_all (q.queue.pending fd)) ∙ k) m.kept))
      where
        s : Served n q.queue.pending fd out
        s = m.served

    behind-nil : (f : ℕ → List Item) (i : ℕ) → behind f fd [] i ≡ f i
    behind-nil f i = elim (Bool-cases (fd == i)) [
      | inl same ↦ rw same (append-nil (f fd) ∙ ap f (==→eq fd i same))
      | inr other ↦ rw other refl
    ]

    pub reported-Tracked :
        {blocked : Type 0} (out : Outcome (Step W))
        → Moved live blocked n q.queue.pending fd out
        → out ≡ returned t
        → Tracked live n t.out given (behind done fd t.log)
    reported-Tracked out m e = record {
      queue = record {
        pending = r.queue.pending;
        valid = r.queue.valid;
        in_order = λ i.
            subst (Sublist (behind done fd t.log i ++ items_all (r.queue.pending i)))
              (behind-nil given i) (r.queue.in_order i);
      };
      some_left = r.some_left;
      complete = When-map live (λ all i. all i ∙ behind-nil given i) r.complete;
    }
      where
        r : Tracked live n t.out (behind given fd []) (behind done fd t.log)
        r = Moved-Tracked out m e
