-- ===== src/Out/History/Runs.antt =====
-- After any sequence of calls of the class out (mpsrc/wavy_out.cc), each descriptor is a queue.
use mathlib.Core.List.Sublist
use mpio.Prelude.{ℕ, ◌≡◌, ◌≢◌, refl, List, [], Bool, true, false, arith}
use mpio.Os.{Os, IsLawful, Answers}
use mpio.Xfer.Command.{Command}
use mpio.Xfer.Ran.{When, When-map}
use mpio.Xfer.Items.{Item, mem, range, items_all}
use mpio.Out.{Out, ident, write_event, write}
use mpio.Out.Valid.{IsValid, init-IsValid, is_registered}
use mpio.Out.Write.{write-Taken}
use mpio.Out.Flush.{write_event-Moved}
use mpio.Send.Sent.{commands, send, send-Taken}
use mpio.Out.History.{Reached, IsQueue, IsComplete, Tracked}
use mpio.Out.History.Steps.{Taken-Tracked, reported-Tracked}

-- A registered descriptor has commands in its buffer.
registered-some :
    (n : ℕ) (cmds : ℕ → List Command) (o : Out) (i : ℕ)
    → IsValid n cmds o
    → is_registered i o.calls ≡ true
    → cmds i ≢ []
registered-some n cmds o i v r z = absurd (ground (arith, v.registered i, r, z))

module _ {W : Type 0} (live : Bool) (realloc : ℕ → Bool) (os : Os W) (n : ℕ)
    (ample : (k : ℕ) → realloc k ≡ true) (lawful : IsLawful os)
    (answers : When live (Answers Unit os)) where
  Reached-Tracked :
      (o : Out) (given done : ℕ → List Item)
      → Reached live realloc os n o given done
      → Tracked live n o given done
  Reached-Tracked _ _ _ Reached.start = record {
    queue = record { pending = λ _. []; valid = init-IsValid n; in_order = λ i. Sublist.refl [] };
    some_left = When-map live (λ _ i. tt) answers;
    complete = When-map live (λ _ i. refl) answers;
  }
  Reached-Tracked _ _ _ (Reached.writes {o} {given} {done} fd buf size w t r lt small fit full e) =
      let q : Tracked live n o given done = Reached-Tracked o given done r in
      let k =
        write-Taken realloc ample live Unit os lawful n q.queue.pending o q.queue.valid fd lt small
          buf size w fit answers (When-map live (λ all. all fd) q.some_left) full in
      Taken-Tracked live n fd o given done q t (range mem buf size) k.0
        (write realloc os o fd buf size w) k.1 e
  Reached-Tracked _ _ _ (Reached.sends {o} {given} {done} fd r fin user w t h lt small fit full e) =
      let q : Tracked live n o given done = Reached-Tracked o given done h in
      let k =
        send-Taken realloc ample live Unit os lawful n q.queue.pending o q.queue.valid fd lt small r
          fin user w fit answers (When-map live (λ all. all fd) q.some_left) full in
      Taken-Tracked live n fd o given done q t (items_all (commands r fin user)) k.0
        (send realloc os o fd r fin user w) k.1 e
  Reached-Tracked _ _ _ (Reached.reports {o} {given} {done} e w t h lt on r) =
      let q : Tracked live n o given done = Reached-Tracked o given done h in
      reported-Tracked live n (ident e) o given done q t (write_event os o e w)
        (write_event-Moved os lawful n q.queue.pending o q.queue.valid e lt
          (registered-some n q.queue.pending o (ident e) q.queue.valid on) live Unit w answers
          (When-map live (λ all. all (ident e)) q.some_left))
        r

module _ {W : Type 0} (realloc : ℕ → Bool) (os : Os W) (n : ℕ) (ample : (k : ℕ) → realloc k ≡ true)
    (lawful : IsLawful os) where
  -- After any sequence of writes, sends and reports, each for a buffer below 2 ^ 62 bytes, where
  -- memory is ample and the kernel never reports more bytes than it was given, the invariant
  -- holds, and each descriptor is a queue: what was done for it, followed by what its buffer
  -- holds, is what was given to it, with items missing but none added, repeated or out of order.
  pub Reached-IsQueue :
      (o : Out) (given done : ℕ → List Item)
      → Reached false realloc os n o given done
      → IsQueue n o given done
  Reached-IsQueue o given done r =
      (Reached-Tracked false realloc os n ample lawful tt o given done r).queue

  -- After any sequence of writes, sends and reports, each for a buffer below 2 ^ 62 bytes, where
  -- memory is ample, the kernel never reports more bytes than it was given, no request is empty,
  -- and the kernel takes some of each or says to wait, each descriptor is a queue with no item
  -- missing: what was done for it, followed by what its buffer holds, is what was given to it, in
  -- order.
  pub Reached-IsComplete :
      (o : Out) (given done : ℕ → List Item)
      → Answers Unit os
      → Reached true realloc os n o given done
      → IsComplete n o given done
  Reached-IsComplete o given done answers r = record {
    pending = t.queue.pending;
    valid = t.queue.valid;
    complete = t.complete;
  }
    where
      t : Tracked true n o given done
      t = Reached-Tracked true realloc os n ample lawful answers o given done r
