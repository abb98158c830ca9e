-- ===== src/Out/History.antt =====
-- Any sequence of writes, sends and reports of the class out (mpsrc/wavy_out.cc), against a queue for each descriptor:
-- what was given to it, and what was done for it.
pub mod Steps
pub mod Runs
use mathlib.Core.Path.{subst}
use mathlib.Core.List.{Sublist, sublist-append_left}
use mathlib.Core.List.Sublist
use mpio.Prelude.{
  ℕ, ◌+◌, ◌^◌, ◌<◌, ◌≡◌, ◌≢◌, refl, sym, ap, ◌∙◌, List, [], ◌∷◌, ◌++◌, append-nil, append_assoc,
  Bool, true, false, Bool-cases, inl, inr, ◌==◌, ==→eq, arith,
}
use mpio.Memory.{Outcome, returned}
use mpio.Os.{Os, IsLawful, Answers}
use mpio.Family.{update, update_self}
use mpio.Xfer.Command.{Command, AllFit, AllSome}
use mpio.Xfer.Ran.{When, When-map, When-both}
use mpio.Xfer.Items.{Item, mem, file, call, range, items_all}
use mpio.Xfer.Clear.{calls_of}
use mpio.Xfer.Push.{IsSmall}
use mpio.Out.{Out, init, Event, ident, Step, write_event, write}
use mpio.Out.Valid.{IsValid, init-IsValid, is_registered}
use mpio.Out.Accept.{Accepted, Taken}
use mpio.Out.Write.{write-Taken}
use mpio.Out.Flush.{Served, Moved, write_event-Moved}
use mpio.Send.Sent.{Request, commands, send, send-Taken}

-- More items behind those of one descriptor.
abbrev pub behind : (ℕ → List Item) → ℕ → List Item → ℕ → List Item
behind f fd more = update f fd (f fd ++ more)

-- The states of the object after any sequence of writes, sends and reports for descriptors below `n`, with what was given
-- to each descriptor and what was done for it. The world may change between the calls; the kernel
-- reports only descriptors that are registered. Where `live` is true, no request is empty.
pub data Reached {W : Type 0} (live : Bool) (realloc : ℕ → Bool) (os : Os W) (n : ℕ)
    : Out → (ℕ → List Item) → (ℕ → List Item) → Type 0 where
  start : Reached live realloc os n init (λ _. []) (λ _. [])
  writes :
      {o : Out} {given done : ℕ → List Item} (fd buf size : ℕ) (w : W) (t : Step W)
      → Reached live realloc os n o given done
      → fd < n
      → IsSmall (o.fdctx fd)
      → buf + size < 2 ^ 64
      → When live (0 < size)
      → write realloc os o fd buf size w ≡ returned t
      → Reached live realloc os n t.out
          (behind given fd (range mem buf size))
          (behind done fd t.log)
  sends :
      {o : Out} {given done : ℕ → List Item} (fd : ℕ) (r : Request) (fin user : ℕ) (w : W)
      (t : Step W)
      → Reached live realloc os n o given done
      → fd < n
      → IsSmall (o.fdctx fd)
      → AllFit (commands r fin user)
      → When live (AllSome (commands r fin user))
      → send realloc os o fd r fin user w ≡ returned t
      → Reached live realloc os n t.out
          (behind given fd (items_all (commands r fin user)))
          (behind done fd t.log)
  reports :
      {o : Out} {given done : ℕ → List Item} (e : Event) (w : W) (t : Step W)
      → Reached live realloc os n o given done
      → ident e < n
      → is_registered (ident e) o.calls ≡ true
      → write_event os o e w ≡ returned t
      → Reached live realloc os n t.out given (behind done (ident e) t.log)

-- For each descriptor, what was done and then what its buffer holds is what was given to it, in order
-- and each item at most once; items may be missing.
pub record IsQueue (n : ℕ) (o : Out) (given done : ℕ → List Item) : Type 0 where
  pub pending : ℕ → List Command
  pub valid : IsValid n pending o
  pub in_order : (i : ℕ) → Sublist (done i ++ items_all (pending i)) (given i)

-- The same with no item missing.
pub record IsComplete (n : ℕ) (o : Out) (given done : ℕ → List Item) : Type 0 where
  pub pending : ℕ → List Command
  pub valid : IsValid n pending o
  pub complete : (i : ℕ) → done i ++ items_all (pending i) ≡ given i

-- Both, the latter where `live` is true.
pub record Tracked (live : Bool) (n : ℕ) (o : Out) (given done : ℕ → List Item) : Type 0 where
  pub queue : IsQueue n o given done
  pub some_left : When live ((i : ℕ) → AllSome (queue.pending i))
  pub complete : When live ((i : ℕ) → done i ++ items_all (queue.pending i) ≡ given i)
