-- ===== src/Xfer/Ops.antt =====
-- `xfer::migrate` and `xfer_impl::try_write` (mpsrc/wavy_out.cc) on buffers of commands.
use mathlib.Core.Path.{subst}
use mpio.Prelude.{
  ◌&&◌, is_empty, ℕ, ◌+◌, ◌≡◌, ◌≢◌, refl, sym, ap, ◌∙◌, List, [], ◌++◌, Option, some, Bool, true,
  false, ◌<◌, ◌⊎◌, not, Bool-cases, inl, inr, length, if◌then◌else◌, arith,
}
use mpio.Memory.{Outcome, returned, add_size, sub_size}
use mpio.Os.{Os, IsLawful, Answers}
use mpio.Xfer.Command.{Command, fill_all, AllSome}
use mpio.Xfer.Codec.{length-le-fill_all}
use mpio.Xfer.Items.{items_all}
use mpio.Xfer.Execute.{execute}
use mpio.Xfer.Ran.{Executed, When, Ran}
use mpio.Xfer.Order.{execute-Ran}
use mpio.Xfer.Buffer.{Xfer, new, append_bytes, migrate, Written, try_write}
use mpio.Xfer.Push.{eq_nil, Holds, IsSmall, Returns, append_bytes-Returns}

-- What `migrate` returns: a source that is empty, and a target that holds `cs`.
pub record Migrated (cs : List Command) (o : Outcome (Xfer × Xfer)) : Type 0 where
  pub source : Xfer
  pub target : Xfer
  pub returns : o ≡ returned (source, target)
  pub emptied : Holds [] source
  pub holds : Holds cs target

-- `migrate` moves the commands of a buffer behind those of another, whether that has memory of its
-- own or not, where memory is ample and the sizes are below 2 ^ 62; the buffer is left empty.
pub migrate-Migrated :
    (realloc : ℕ → Bool)
    → ((n : ℕ) → realloc n ≡ true)
    → (cs ds : List Command) (x to : Xfer) → Holds cs x
    → Holds ds to
    → IsSmall x
    → IsSmall to
    → Migrated (ds ++ cs) (migrate realloc x to)
unfolding migrate
migrate-Migrated realloc ample cs ds x to h k sx st = elim (Bool-cases to.allocated) [
  | inl own ↦
      let r : Returns (ds ++ cs) (append_bytes realloc to (length x.used) x.used) =
        append_bytes-Returns realloc ample ds cs to (length x.used) x.used k st h.fit h.bytes refl
          (omega arith) in
      simp own (record {
        source = record x { used = []; free = add_size x.free (length x.used) };
        target = r.buffer;
        returns = rw r.returns;
        emptied = record {
          bytes = refl;
          fit = tt;
          capacity = omega arith;
          unallocated = λ a. (
            refl,
            omega (
              arith,
              ap length h.bytes,
              ap (λ e. length (fill_all e)) (h.unallocated a).0,
              (h.unallocated a).1,
            ),
          );
        };
        holds = r.holds;
      })
  | inr null ↦ simp null (record {
    source = new;
    target = x;
    returns = refl;
    emptied = record {
      bytes = refl;
      fit = tt;
      capacity = omega arith;
      unallocated = λ a. (refl, refl);
    };
    holds = subst (λ d. Holds (d ++ cs) x) (sym (k.unallocated null).0) h;
  })
]

-- What `try_write` leaves of a buffer that held `cs`.
pub record Flushed {W : Type 0} (cs : List Command) (x : Xfer) (o : Option (Written W))
    : Type 0 where
  pub written : Written W
  pub remaining : List Command
  pub returns : o ≡ some written
  pub holds : Holds remaining written.buffer
  pub order : items_all cs ≡ written.log ++ items_all remaining
  pub pending : written.cont ≡ true → remaining ≢ []
  pub size : length written.buffer.used + written.buffer.free ≡ length x.used + x.free

-- The same, and what it leaves where the kernel answers each request that is not empty.
pub record Drained {W : Type 0} (live : Bool) (blocked : Type 0) (cs : List Command) (x : Xfer)
    (o : Option (Written W)) : Type 0 where
  pub flushed : Flushed cs x o
  pub some_left : When live (AllSome flushed.remaining)
  pub finishes : When live (flushed.written.cont ≡ false → flushed.remaining ≡ [])
  pub advances :
      When live (flushed.written.cont ≡ true → (0 < length flushed.written.log) ⊎ blocked)

module _ {W : Type 0} (os : Os W) (lawful : IsLawful os) where
  pub try_write-Drained :
      (live : Bool) (blocked : Type 0) (cs : List Command) (x : Xfer) (fd : ℕ) (w : W)
      → When live (Answers blocked os)
      → Holds cs x
      → When live (AllSome cs)
      → Drained live blocked cs x (try_write os x fd w)
  unfolding try_write
  try_write-Drained live blocked cs x fd w answers h full = record {
    flushed = record {
      written = record {
        buffer = record x {
          used = e.run.left;
          free = sub_size (length x.used + x.free) (length e.run.left);
        };
        cont = e.run.cont;
        log = e.run.log;
        world =
            if not e.run.cont && not (is_empty e.run.left)
            then os.shutdown e.run.world fd
            else e.run.world;
      };
      remaining = e.remaining;
      returns = rw (ap (λ u. execute os fd u w) h.bytes ∙ e.returns);
      holds = record {
        bytes = e.left;
        fit = e.fit;
        capacity = omega (arith, h.capacity, e.shrinks, ap length h.bytes);
        unallocated = λ a.
            let (none_cs, zero_x) = h.unallocated a in
            let gone : length (fill_all cs) ≡ 0 = ap (λ c. length (fill_all c)) none_cs in
            let none_left : e.remaining ≡ [] =
              eq_nil e.remaining (
                omega (arith, gone, e.shrinks, ap length e.left, length-le-fill_all e.remaining)) in
            (none_left, omega (arith, gone, e.shrinks, ap length h.bytes));
      };
      order = e.order;
      pending = e.pending;
      size = omega (arith, h.capacity, e.shrinks, ap length h.bytes);
    };
    some_left = r.some_left;
    finishes = r.finishes;
    advances = r.advances;
  }
    where
      r : Ran live blocked cs (execute os fd (fill_all cs) w)
      r = execute-Ran live blocked os lawful answers fd cs w h.fit full

      e : Executed cs (execute os fd (fill_all cs) w)
      e = r.executed

  -- `try_write` on a buffer that holds `cs` returns; what it sent and called, in that order, followed
  -- by what the buffer holds then, is what the buffer held; it returns true only if something is
  -- left; and the space that is not used any more is free.
  pub try_write-Flushed :
      (cs : List Command) (x : Xfer) (fd : ℕ) (w : W)
      → Holds cs x
      → Flushed cs x (try_write os x fd w)
  try_write-Flushed cs x fd w h = (try_write-Drained false Unit cs x fd w tt h tt).flushed
