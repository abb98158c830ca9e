-- ===== src/Xfer/Ran.antt =====
-- What a run of `xfer_impl::execute` (mpsrc/wavy_out.cc) leaves, put together from what its first command
-- leaves.
use mpio.Prelude.{
  ◌⊎◌, length-append, ◌<◌, ◌≤◌, ◌≡◌, ◌≢◌, refl, sym, ap, ◌∙◌, List, [], ◌∷◌, ◌++◌, append_assoc,
  length, inl, inr, Bool, true, false, arith, Option, some,
}
use mpio.Xfer.Command.{Command, fill, fill_all, AllFit, AllSome}
use mathlib.Core.Path.{ap₂}
use mpio.Xfer.Items.{Item, items, items_all}
use mpio.Xfer.Execute.{Run, log_first}

-- What a run from the commands `cs` leaves: it returns, and what it has done, followed by what the
-- commands that are left stand for, is what the commands stood for. It asks to go on only if some
-- command is left.
pub record Executed {W : Type 0} (cs : List Command) (o : Option (Run W)) : Type 0 where
  pub run : Run W
  pub remaining : List Command
  pub returns : o ≡ some run
  pub left : run.left ≡ fill_all remaining
  pub fit : AllFit remaining
  pub order : items_all cs ≡ run.log ++ items_all remaining
  pub shrinks : length run.left ≤ length (fill_all cs)
  pub pending : run.cont ≡ true → remaining ≢ []

-- What a run leaves where the kernel answers each request that is not empty: if it does not ask to go
-- on, everything is done; if it does, it has done something, or it was told to wait.
pub record Advanced {W : Type 0} (blocked : Type 0) (cs : List Command) (o : Option (Run W))
    : Type 0 where
  pub executed : Executed cs o
  pub some_left : AllSome executed.remaining
  pub finishes : executed.run.cont ≡ false → executed.remaining ≡ []
  pub advances : executed.run.cont ≡ true → (0 < length executed.run.log) ⊎ blocked

-- A statement that is made only of a kernel that answers.
abbrev pub When : Bool → Type 0 → Type 0
When true A = A
When false A = Unit

pub When-map : (b : Bool) {A B : Type 0} → (A → B) → When b A → When b B
When-map true f a = f a
When-map false f a = tt

pub When-always : (b : Bool) {A : Type 0} → A → When b A
When-always true a = a
When-always false a = tt

pub When-both : (b : Bool) {A B C : Type 0} → (A → B → C) → When b A → When b B → When b C
When-both true f a c = f a c
When-both false f a c = tt

-- Both at once.
pub record Ran {W : Type 0} (live : Bool) (blocked : Type 0) (cs : List Command)
    (o : Option (Run W)) : Type 0 where
  pub executed : Executed cs o
  pub some_left : When live (AllSome executed.remaining)
  pub finishes : When live (executed.run.cont ≡ false → executed.remaining ≡ [])
  pub advances : When live (executed.run.cont ≡ true → (0 < length executed.run.log) ⊎ blocked)

module _ {W : Type 0} (live : Bool) (blocked : Type 0) where
  -- A stop that did nothing.
  pub Ran-stop :
      (c : Command) (cs : List Command) (b : Bool) (w : W)
      → AllFit (c ∷ cs)
      → When live (AllSome (c ∷ cs))
      → When live ((b ≡ true) × blocked)
      → Ran live blocked
          (c ∷ cs)
          (some (record { left = fill_all (c ∷ cs); cont = b; log = []; world = w }))
  Ran-stop c cs b w f some_cs waits = record {
    executed = record {
      run = record { left = fill_all (c ∷ cs); cont = b; log = []; world = w };
      remaining = c ∷ cs;
      returns = refl;
      left = refl;
      fit = f;
      order = refl;
      shrinks = omega arith;
      pending = λ _. cc;
    };
    some_left = some_cs;
    finishes = When-map live (λ p e. absurd (ground (arith, p.0, e))) waits;
    advances = When-map live (λ p e. inr p.1) waits;
  }

  -- A command that is done, before a run from the commands behind it.
  pub Ran-next :
      (c : Command) (cs : List Command) (done : List Item) (o : Option (Run W))
      → items c ≡ done
      → Ran live blocked cs o
      → Ran live blocked (c ∷ cs) (log_first done o)
  Ran-next c cs done o h r = record {
    executed = record {
      run = record run { log = done ++ run.log };
      remaining = remaining;
      returns = rw returns;
      left = left;
      fit = fit;
      order = ap₂ ◌++◌ h order ∙ sym (append_assoc done run.log (items_all remaining));
      shrinks = omega (arith, shrinks, length-append (fill c) (fill_all cs));
      pending = pending;
    };
    some_left = r.some_left;
    finishes = r.finishes;
    advances =
        When-map live
          (λ a e. elim (a e) [
            | inl some_done ↦ inl (omega (arith, length-append done run.log))
            | inr b ↦ inr b
          ])
          r.advances;
  }
    where
      open r.executed use {run, remaining, returns, left, fit, order, shrinks, pending}

  -- A command that stands for nothing, before a run from the commands behind it.
  pub Ran-skip :
      (c : Command) (cs : List Command) (o : Option (Run W))
      → items c ≡ []
      → Ran live blocked cs o
      → Ran live blocked (c ∷ cs) o
  Ran-skip c cs o h r = record {
    executed = record {
      run = e.run;
      remaining = e.remaining;
      returns = e.returns;
      left = e.left;
      fit = e.fit;
      order = ap (λ xs. xs ++ items_all cs) h ∙ e.order;
      shrinks = omega (arith, e.shrinks, length-append (fill c) (fill_all cs));
      pending = e.pending;
    };
    some_left = r.some_left;
    finishes = r.finishes;
    advances = r.advances;
  }
    where
      e : Executed cs o
      e = r.executed

  -- A command that is done in part: `c'` is left of it.
  pub Ran-part :
      (c c' : Command) (cs : List Command) (r : Run W)
      → r.left ≡ fill_all (c' ∷ cs)
      → AllFit (c' ∷ cs)
      → items c ≡ r.log ++ items c'
      → length (fill c') ≤ length (fill c)
      → r.cont ≡ true
      → When live (AllSome (c' ∷ cs))
      → When live (0 < length r.log)
      → Ran live blocked (c ∷ cs) (some r)
  Ran-part c c' cs r l f h le on some_cs some_done = record {
    executed = record {
      run = r;
      remaining = c' ∷ cs;
      returns = refl;
      left = l;
      fit = f;
      order = ap (λ xs. xs ++ items_all cs) h ∙ append_assoc r.log (items c') (items_all cs);
      shrinks = omega (
        arith,
        ap length l,
        length-append (fill c) (fill_all cs),
        length-append (fill c') (fill_all cs),
      );
      pending = λ _. cc;
    };
    some_left = some_cs;
    finishes = When-map live (λ p e. absurd (ground (arith, on, e))) some_done;
    advances = When-map live (λ p e. inl p) some_done;
  }
