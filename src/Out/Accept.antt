-- ===== src/Out/Accept.antt =====
-- What the methods of the class out (mpsrc/wavy_out.cc) do with commands that are given to them.
use mpio.Prelude.{
  ℕ, ◌+◌, ◌<◌, ◌≡◌, ◌≢◌, refl, sym, ap, ◌∙◌, List, [], ◌∷◌, ◌++◌, append-nil, append_assoc, Bool,
  false, not, is_empty, arith,
}
use mpio.Memory.{Outcome, returned}
use mpio.Family.{update, update_self, update_ne}
use mathlib.Core.Path.{subst}
use mpio.Xfer.Command.{Command, iovec, sendfile, finalize, AllSome}
use mpio.Xfer.Ran.{When, When-map, When-both}
use mpio.Xfer.Items.{Item, items, items_all}
use mpio.Xfer.Buffer.{Xfer}
use mpio.Xfer.Push.{Holds}
use mpio.Out.{Out, KernelCall, add_fd, Step, store, watch}
use mpio.Out.Valid.{IsValid, busy, is_registered, IsValid-set}

-- Commands `cs` were given to a method for `fd`. It returns, the invariant holds, and the other
-- descriptors have what they had. What was sent and called, then what the buffer of `fd` holds, is
-- what the buffer held and then `cs`, in order; what is missing at the end is `lost`, and there is
-- nothing missing unless the buffer is empty.
pub record Accepted {W : Type 0} (n : ℕ) (cmds : ℕ → List Command) (fd : ℕ) (new lost : List Item)
    (o : Outcome (Step W)) : Type 0 where
  pub step : Step W
  pub returns : o ≡ returned step
  pub after : ℕ → List Command
  pub valid : IsValid n after step.out
  pub others : (j : ℕ) → fd ≢ j → after j ≡ cmds j
  pub order : items_all (cmds fd) ++ new ≡ step.log ++ (items_all (after fd) ++ lost)
  pub dropped : after fd ≢ [] → lost ≡ []

pub items_all-append : (cs ds : List Command) → items_all (cs ++ ds) ≡ items_all cs ++ items_all ds
items_all-append [] ds = refl
items_all-append (c ∷ cs) ds =
    ap (◌++◌ (items c)) (items_all-append cs ds) ∙ sym (append_assoc (items c) (items_all cs) _)

-- The same, where the kernel answers each request that is not empty and no command is: nothing is
-- missing.
pub record Taken {W : Type 0} (live : Bool) (n : ℕ) (cmds : ℕ → List Command) (fd : ℕ)
    (new lost : List Item) (o : Outcome (Step W)) : Type 0 where
  pub accepted : Accepted n cmds fd new lost o
  pub none_lost : When live (lost ≡ [])
  pub some_left : When live (AllSome (accepted.after fd))

pub AllSome-append : (cs ds : List Command) → AllSome cs → AllSome ds → AllSome (cs ++ ds)
AllSome-append [] ds a b = b
AllSome-append (iovec vec ∷ cs) ds a b = (a.0, AllSome-append cs ds a.1 b)
AllSome-append (sendfile infd off len ∷ cs) ds a b = (a.0, AllSome-append cs ds a.1 b)
AllSome-append (finalize fin user ∷ cs) ds a b = AllSome-append cs ds a b

module _ {W : Type 0} (live : Bool) (n : ℕ) (cmds : ℕ → List Command) (o : Out)
    (v : IsValid n cmds o) (fd : ℕ) (lt : fd < n) (w : W) (new log : List Item) where
  -- The buffer of `fd` holds `cs'` afterwards, and nothing is lost.
  Taken-set :
      (cs' : List Command) (x : Xfer) (m : ℕ) (calls : List KernelCall)
      → Holds cs' x
      → m + busy (cmds fd) ≡ o.watching + busy cs'
      → is_registered fd calls ≡ not (is_empty cs')
      → ((j : ℕ) → fd ≢ j → is_registered j calls ≡ is_registered j o.calls)
      → items_all (cmds fd) ++ new ≡ log ++ items_all cs'
      → When live (AllSome cs')
      → Taken live n cmds fd new [] (
          returned (record {
            out = record {
              fdctx = update o.fdctx fd x;
              watching = m;
              queue = o.queue;
              calls = calls;
            };
            world = w;
            log = log;
            result = false;
          }))
  Taken-set cs' x m calls h counts here others order full = record {
    accepted = record {
      step = _;
      returns = refl;
      after = update cmds fd cs';
      valid = IsValid-set n cmds o fd cs' x m calls o.queue v lt h counts here others;
      others = λ j ne. update_ne cmds fd j cs' ne;
      order = rw (append-nil, update_self) order;
      dropped = λ _. refl;
    };
    none_lost = When-map live (λ _. refl) full;
    some_left = rw (update_self cmds fd cs') full;
  }

  -- More is added to a buffer that holds commands.
  pub Taken-more :
      (c : Command) (cs cs' : List Command) (x : Xfer)
      → cmds fd ≡ c ∷ cs
      → Holds ((c ∷ cs) ++ cs') x
      → items_all (c ∷ cs) ++ new ≡ log ++ items_all ((c ∷ cs) ++ cs')
      → When live (AllSome (cmds fd))
      → When live (AllSome cs')
      → Taken live n cmds fd new []
          (returned (record { out = store o fd x; world = w; log = log; result = false }))
  Taken-more c cs cs' x e h order old full =
      Taken-set ((c ∷ cs) ++ cs') x o.watching o.calls h (omega (arith, ap busy e))
        (v.registered fd ∙ ap (λ l. not (is_empty l)) e) (λ j ne. refl)
        (ap (λ l. items_all l ++ new) e ∙ order)
        (When-both live (λ a b. AllSome-append (c ∷ cs) cs' (subst AllSome e a) b) old full)

  -- A buffer that was empty gets commands, and its descriptor is watched.
  pub Taken-watch :
      (c : Command) (cs : List Command) (x : Xfer)
      → cmds fd ≡ []
      → Holds (c ∷ cs) x
      → new ≡ log ++ items_all (c ∷ cs)
      → When live (AllSome (c ∷ cs))
      → Taken live n cmds fd new [] (
          returned (record { out = watch (store o fd x) fd; world = w; log = log; result = false }))
  unfolding watch
  Taken-watch c cs x e h order full =
      Taken-set (c ∷ cs) x (o.watching + 1) (add_fd fd ∷ o.calls) h (omega (arith, ap busy e))
        (ground arith) (λ j ne. ground arith) (ap (λ l. items_all l ++ new) e ∙ order) full

  -- Nothing is kept.
  pub Taken-none :
      (lost : List Item)
      → cmds fd ≡ []
      → new ≡ log ++ lost
      → When live (lost ≡ [])
      → Taken live n cmds fd new lost
          (returned (record { out = o; world = w; log = log; result = false }))
  Taken-none lost e order none_lost = record {
    accepted = record {
      step = record { out = o; world = w; log = log; result = false };
      returns = refl;
      after = cmds;
      valid = v;
      others = λ j ne. refl;
      order = rw e order;
      dropped = λ ne. absurd (ne e);
    };
    none_lost = none_lost;
    some_left = When-map live (λ _. subst AllSome (sym e) tt) none_lost;
  }
