-- ===== src/Out/Valid.antt =====
-- The invariant of the class out (mpsrc/wavy_out.h): a descriptor is watched exactly while its
-- buffer holds commands, and the count of watched descriptors is right.
use mathlib.Core.Path.{subst}
use mpio.Prelude.{
  ℕ, ◌+◌, ◌<◌, ◌≡◌, ◌≢◌, refl, sym, ap, ◌∙◌, List, [], ◌∷◌, Bool, true, false, not, is_empty,
  Bool-cases, inl, inr, ◌==◌, if◌then◌else◌, arith, ==→eq,
}
use mpio.Family.{update, count, count-update, count-zero, count-eq_zero}
use mpio.Xfer.Command.{Command, fill_all}
use mpio.Xfer.Codec.{is_empty-fill}
use mpio.Xfer.Buffer.{Xfer, empty}
use mpio.Xfer.Push.{Holds}
use mpio.Out.{init, Out, Event, ident, KernelCall, add_fd, remove, reactivate}

abbrev pub busy : List Command → ℕ
busy [] = 0
busy (c ∷ cs) = 1

-- Whether `fd` is registered with the kernel object after the calls (the last one first): added,
-- and not removed since.
abbrev pub is_registered : ℕ → List KernelCall → Bool
is_registered fd [] = false
is_registered fd (add_fd fd' ∷ calls) = if fd' == fd then true else is_registered fd calls
is_registered fd (remove e ∷ calls) = if ident e == fd then false else is_registered fd calls
is_registered fd (reactivate e ∷ calls) = is_registered fd calls

-- The buffers hold the commands `cmds`, for the descriptors below `n`.
pub record IsValid (n : ℕ) (cmds : ℕ → List Command) (o : Out) : Type 0 where
  pub holds : (i : ℕ) → Holds (cmds i) (o.fdctx i)
  pub counted : o.watching ≡ count busy n cmds
  pub registered : (i : ℕ) → is_registered i o.calls ≡ not (is_empty (cmds i))

pub is_empty-Holds : (cs : List Command) (x : Xfer) → Holds cs x → empty x ≡ is_empty cs
is_empty-Holds [] x h = ap is_empty h.bytes
is_empty-Holds (c ∷ cs) x h = ap is_empty h.bytes ∙ is_empty-fill c (fill_all cs)

-- No descriptor is watched exactly if no buffer holds a command: what `flush` waits for.
pub is_idle_iff :
    (n : ℕ) (cmds : ℕ → List Command) (o : Out)
    → IsValid n cmds o
    → (o.watching ≡ 0 → (i : ℕ) → i < n → empty (o.fdctx i) ≡ true)
      × (((i : ℕ) → i < n → empty (o.fdctx i) ≡ true) → o.watching ≡ 0)
is_idle_iff n cmds o v = (
  λ z i h.
      is_empty-Holds (cmds i) (o.fdctx i) (v.holds i)
      ∙ not_busy (cmds i) (count-zero busy n cmds i (sym v.counted ∙ z) h),
  λ all.
      v.counted
      ∙ count-eq_zero busy n cmds
          (λ i h. idle (cmds i) (sym (is_empty-Holds (cmds i) (o.fdctx i) (v.holds i)) ∙ all i h)),
)
  where
    not_busy : (cs : List Command) → busy cs ≡ 0 → is_empty cs ≡ true
    not_busy [] h = refl
    not_busy (c ∷ cs) h = absurd (omega arith)

    idle : (cs : List Command) → is_empty cs ≡ true → busy cs ≡ 0
    idle [] h = refl
    idle (c ∷ cs) h = cc

-- A new buffer for `fd`, with the count and the calls that go with it.
pub IsValid-set :
    (n : ℕ) (cmds : ℕ → List Command) (o : Out) (fd : ℕ) (cs : List Command) (x : Xfer) (m : ℕ)
    (calls : List KernelCall) (queue : List Event)
    → IsValid n cmds o
    → fd < n
    → Holds cs x
    → m + busy (cmds fd) ≡ o.watching + busy cs
    → is_registered fd calls ≡ not (is_empty cs)
    → ((j : ℕ) → fd ≢ j → is_registered j calls ≡ is_registered j o.calls)
    → IsValid n
        (update cmds fd cs)
        (record { fdctx = update o.fdctx fd x; watching = m; queue = queue; calls = calls })
IsValid-set n cmds o fd cs x m calls queue v lt h counts here others = record {
  holds =
      λ i. elim (Bool-cases (fd == i)) [ inl same ↦ rw same h | inr other ↦ rw other (v.holds i) ];
  counted = omega (arith, counts, v.counted, count-update busy n cmds fd cs lt);
  registered = λ i. elim (Bool-cases (fd == i)) [
    | inl same ↦ rw same (ap (λ j. is_registered j calls) (sym (==→eq fd i same)) ∙ here)
    | inr other ↦ rw other (others i (ground arith) ∙ v.registered i)
  ];
}

-- The buffer of `fd` is empty as its commands say, and holds them.
pub IsValid-empty :
    (n : ℕ) (cmds : ℕ → List Command) (o : Out)
    → IsValid n cmds o
    → (fd : ℕ) (old : List Command) → cmds fd ≡ old
    → empty (o.fdctx fd) ≡ is_empty old
IsValid-empty n cmds o v fd old e =
    is_empty-Holds (cmds fd) (o.fdctx fd) (v.holds fd) ∙ ap is_empty e

pub IsValid-Holds :
    (n : ℕ) (cmds : ℕ → List Command) (o : Out)
    → IsValid n cmds o
    → (fd : ℕ) (old : List Command) → cmds fd ≡ old
    → Holds old (o.fdctx fd)
IsValid-Holds n cmds o v fd old e = subst (λ l. Holds l (o.fdctx fd)) e (v.holds fd)

-- Nothing is watched at first, and no buffer holds a command.
pub init-IsValid : (n : ℕ) → IsValid n (λ _. []) init
init-IsValid n = record {
  holds = λ i. record {
    bytes = refl;
    fit = tt;
    capacity = omega arith;
    unallocated = λ _. (refl, refl);
  };
  counted = sym (count-eq_zero busy n (λ _. []) (λ i h. refl));
  registered = λ i. refl;
}
