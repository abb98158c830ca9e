-- ===== src/Out/Flush.antt =====
-- `out::write_event` (mpsrc/wavy_out.cc): a watched descriptor can be written.
use mpio.Prelude.{
  ℕ, ◌+◌, ◌-◌, ◌<◌, ◌≡◌, ◌≢◌, ◌⊎◌, refl, sym, ap, ◌∙◌, List, [], ◌∷◌, ◌++◌, false, not, is_empty,
  Bool, append-nil, Bool-cases, inl, inr, length, ◌==◌, arith,
}
use mpio.Memory.{Outcome, returned, ◌>>=◌}
use mpio.Os.{Os, IsLawful, Answers}
use mpio.Family.{update, count-update, update_self, update_ne}
use mpio.Xfer.Command.{Command, fill_all, AllSome}
use mpio.Xfer.Items.{Item, items_all}
use mpio.Xfer.Buffer.{Xfer, clear, try_write, Written}
use mpio.Xfer.Push.{Holds}
use mpio.Xfer.Clear.{calls_of, clear_lem}
use mpio.Xfer.Ran.{When, When-map}
use mpio.Xfer.Ops.{Flushed, Drained, try_write-Drained}
use mpio.Out.{Out, Event, ident, Step, is_idle, remove, reactivate, from_option, write_event}
use mpio.Out.Valid.{IsValid, busy, IsValid-set}

-- What `write_event` leaves. Of the items that the buffer held, `sent` was done, in order, and the
-- commands `remaining` follow. Either those stay in the buffer, there are some, and the result is
-- false; or the buffer is empty, their finalizers were called in order, and the result says whether
-- no descriptor is watched any more.
pub record Served {W : Type 0} (n : ℕ) (cmds : ℕ → List Command) (fd : ℕ) (o : Outcome (Step W))
    : Type 0 where
  pub step : Step W
  pub returns : o ≡ returned step
  pub after : ℕ → List Command
  pub valid : IsValid n after step.out
  pub others : (j : ℕ) → fd ≢ j → after j ≡ cmds j
  pub sent : List Item
  pub remaining : List Command
  pub order : items_all (cmds fd) ≡ sent ++ items_all remaining
  pub ends :
      ((after fd ≡ remaining) × (remaining ≢ []) × (step.log ≡ sent) × (step.result ≡ false))
      ⊎ ((after fd ≡ [])
          × (step.log ≡ sent ++ calls_of (items_all remaining))
          × (step.result ≡ is_idle step.out))

-- The same, where the kernel answers each request that is not empty and no command is: nothing is
-- dropped, and the buffer is empty afterwards, or something was done, or the kernel said to wait.
pub record Moved {W : Type 0} (live : Bool) (blocked : Type 0) (n : ℕ) (cmds : ℕ → List Command)
    (fd : ℕ) (o : Outcome (Step W)) : Type 0 where
  pub served : Served n cmds fd o
  pub some_left : When live (AllSome (served.after fd))
  pub kept : When live (items_all (cmds fd) ≡ served.step.log ++ items_all (served.after fd))
  pub advances : When live ((served.after fd ≡ []) ⊎ ((0 < length served.step.log) ⊎ blocked))

Holds-cleared :
    (cs : List Command) (x : Xfer)
    → Holds cs x
    → Holds [] (record x { used = []; free = length x.used + x.free })
Holds-cleared cs x h = record {
  bytes = refl;
  fit = tt;
  capacity = omega (arith, h.capacity);
  unallocated = λ a.
      let (none_cs, zero_free) = h.unallocated a in
      (refl, omega (arith, ap length h.bytes, ap (λ c. length (fill_all c)) none_cs, zero_free));
}

busy_one : (cs : List Command) → cs ≢ [] → busy cs ≡ 1
busy_one [] h = absurd (h refl)
busy_one (c ∷ cs) h = refl

is_empty-false : (cs : List Command) → cs ≢ [] → is_empty cs ≡ false
is_empty-false [] h = absurd (h refl)
is_empty-false (c ∷ cs) h = refl

module _ {W : Type 0} (live : Bool) (blocked : Type 0) (n : ℕ) (cmds : ℕ → List Command) (o : Out)
    (v : IsValid n cmds o) (e : Event) (lt : ident e < n) (ne : cmds (ident e) ≢ []) where
  -- Something is left: the event is reactivated.
  Moved-more :
      (t : Written W) (remaining : List Command)
      → Holds remaining t.buffer
      → items_all (cmds (ident e)) ≡ t.log ++ items_all remaining
      → remaining ≢ []
      → When live (AllSome remaining)
      → When live ((0 < length t.log) ⊎ blocked)
      → Moved live blocked n cmds (ident e) (
          returned (record {
            out = record o {
              fdctx = update o.fdctx (ident e) t.buffer;
              calls = reactivate e ∷ o.calls;
            };
            world = t.world;
            log = t.log;
            result = false;
          }))
  Moved-more t remaining h order more full advances = record {
    served = record {
      step = _;
      returns = refl;
      after = update cmds (ident e) remaining;
      valid =
          IsValid-set n cmds o (ident e) remaining t.buffer o.watching (reactivate e ∷ o.calls)
            o.queue v lt h (omega (arith, busy_one (cmds (ident e)) ne, busy_one remaining more))
            (v.registered (ident e)
              ∙ ap not (is_empty-false (cmds (ident e)) ne ∙ sym (is_empty-false remaining more)))
            (λ j d. refl);
      others = λ j d. update_ne cmds (ident e) j remaining d;
      sent = t.log;
      remaining = remaining;
      order = order;
      ends = inl (update_self cmds (ident e) remaining, more, refl, refl);
    };
    some_left = rw (update_self cmds (ident e) remaining) full;
    kept = When-map live (λ a. rw (update_self cmds (ident e) remaining) order) full;
    advances = When-map live (λ a. inr a) advances;
  }

  -- The buffer is cleared, and the descriptor is not watched any more.
  Moved-end :
      (t : Written W) (remaining : List Command)
      → Holds remaining t.buffer
      → items_all (cmds (ident e)) ≡ t.log ++ items_all remaining
      → When live (remaining ≡ [])
      → Moved live blocked n cmds (ident e) (
          from_option (clear t.buffer) >>= λ (calls, x). returned (record {
            out = record o {
              fdctx = update o.fdctx (ident e) x;
              watching = o.watching - 1;
              calls = remove e ∷ o.calls;
            };
            world = t.world;
            log = t.log ++ calls;
            result = o.watching - 1 == 0;
          }))
  Moved-end t remaining h order all = rw (clear_lem remaining t.buffer h) (record {
    served = record {
      step = _;
      returns = refl;
      after = update cmds (ident e) [];
      valid =
          IsValid-set n cmds o (ident e) [] _ (o.watching - 1) (remove e ∷ o.calls) o.queue v lt
            (Holds-cleared remaining t.buffer h)
            (omega (
              arith,
              busy_one (cmds (ident e)) ne,
              v.counted,
              count-update busy n cmds (ident e) [] lt,
            ))
            (ground arith) (λ j d. ground arith);
      others = λ j d. update_ne cmds (ident e) j [] d;
      sent = t.log;
      remaining = remaining;
      order = order;
      ends = inr (update_self cmds (ident e) [], refl, refl);
    };
    some_left = rw (update_self cmds (ident e) []) (When-map live (λ a. tt) all);
    kept =
        When-map live
          (λ a.
            order
            ∙ ap (◌++◌ t.log) (ap items_all a)
            ∙ sym (
                ap (λ c. (t.log ++ calls_of (items_all remaining)) ++ items_all c)
                  (update_self cmds (ident e) [])
                ∙ append-nil _
                ∙ ap (λ c. t.log ++ calls_of (items_all c)) a))
          all;
    advances = When-map live (λ a. inl (update_self cmds (ident e) [])) all;
  })

module _ {W : Type 0} (os : Os W) (lawful : IsLawful os) (n : ℕ) (cmds : ℕ → List Command) (o : Out)
    (v : IsValid n cmds o) (e : Event) (lt : ident e < n) (ne : cmds (ident e) ≢ []) where
  -- `write_event` for a watched descriptor, whose buffer holds a command, returns and keeps the
  -- invariant; what was sent and called, and the commands that then remain, are what the buffer
  -- held, in order; and either some commands remain, in the buffer, and the descriptor stays
  -- watched, or the buffer is empty, the finalizers of the commands that remained were called,
  -- and the descriptor is no longer watched. Where the kernel answers each request that is not
  -- empty and no command is, nothing is dropped, and either the buffer is empty afterwards, or
  -- something was done, or the kernel said to wait.
  pub write_event-Moved :
      (live : Bool) (blocked : Type 0) (w : W)
      → When live (Answers blocked os)
      → When live (AllSome (cmds (ident e)))
      → Moved live blocked n cmds (ident e) (write_event os o e w)
  unfolding write_event
  write_event-Moved live blocked w answers full = rw t.returns (elim (Bool-cases t.written.cont) [
    | inl more ↦ simp more (
        Moved-more live blocked n cmds o v e lt ne t.written t.remaining t.holds t.order
          (t.pending more) d.some_left (When-map live (λ a. a more) d.advances))
    | inr stop ↦ simp stop (
        Moved-end live blocked n cmds o v e lt ne t.written t.remaining t.holds t.order
          (When-map live (λ a. a stop) d.finishes))
  ])
    where
      d :
          Drained live blocked
            (cmds (ident e))
            (o.fdctx (ident e))
            (try_write os (o.fdctx (ident e)) (ident e) w)
      d =
          try_write-Drained os lawful live blocked (cmds (ident e)) (o.fdctx (ident e)) (ident e) w
            answers (v.holds (ident e)) full

      t :
          Flushed
            (cmds (ident e))
            (o.fdctx (ident e))
            (try_write os (o.fdctx (ident e)) (ident e) w)
      t = d.flushed
