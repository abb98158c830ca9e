-- ===== src/Loop/Alone/Writes.antt =====
-- A round of `flush` (mpsrc/wavy_loop.cc) without worker threads that calls `out::write_event`.
use mathlib.Core.Path.{subst}
use mpio.Prelude.{
  ℕ, ◌≤◌, ◌<◌, ◌≡◌, ◌≢◌, refl, sym, ap, ◌∙◌, List, [], ◌∷◌, ◌++◌, append_assoc, length,
  length-append, true, is_empty, Bool-cases, inl, inr, ◌==◌, ==→eq, arith, if◌then◌else◌,
}
use mpio.Memory.{Outcome}
use mpio.Family.{update_self, update_ne}
use mpio.Xfer.Command.{Command, AllSome}
use mpio.Xfer.Items.{Item, items_all}
use mpio.Out.{Out, Event, ident, Step, write_event}
use mpio.Out.Valid.{busy}
use mpio.Out.Flush.{Moved, write_event-Moved}
use mpio.Out.History.{behind}
use mpio.Loop.Alone.{Env, State, queue_rest, once_rest, once}
use mpio.Loop.Alone.Rounds.{
  Queued, weight, Flushing, Round, Queued-after, count-others, IsValid-queue, write_event-queue,
  Serves, once-write,
}

busy_some : (cs : List Command) → cs ≢ [] → busy cs ≡ 1
busy_some [] h = absurd (h refl)
busy_some (c ∷ cs) h = refl

busy_le : (cs : List Command) → busy cs ≤ 1
busy_le [] = omega arith
busy_le (c ∷ cs) = omega arith

-- A report leaves less for its descriptor.
lighter :
    {W : Type 0} (n : ℕ) (cmds : ℕ → List Command) (d : ℕ) (o : Outcome (Step W))
    (m : Moved true ⊥ n cmds d o)
    → cmds d ≢ []
    → weight (m.served.after d) < weight (cmds d)
lighter n cmds d o m ne = elim m.advances [
  | inl none_left ↦ omega (arith, busy_some (cmds d) ne, ap weight none_left)
  | inr some_done ↦ elim some_done [
    | inl sent ↦ omega (
      arith,
      sent,
      busy_some (cmds d) ne,
      busy_le (m.served.after d),
      ap length m.kept,
      length-append m.served.step.log (items_all (m.served.after d)),
    )
    | inr b ↦ absurd b
  ]
]

one_or_none : (es : List Event) → (if is_empty es then 1 else 0) ≤ 1
one_or_none [] = omega arith
one_or_none (e ∷ es) = omega arith

-- What was done for a descriptor, followed by what is left, stays the same.
behind_lem :
    (done : ℕ → List Item) (cmds after : ℕ → List Command) (d : ℕ) (log : List Item)
    → items_all (cmds d) ≡ log ++ items_all (after d)
    → ((j : ℕ) → d ≢ j → after j ≡ cmds j)
    → (i : ℕ) → behind done d log i ++ items_all (after i) ≡ done i ++ items_all (cmds i)
behind_lem done cmds after d log kept same i = elim (Bool-cases (d == i)) [
  | inl here ↦
      subst (λ k. behind done d log k ++ items_all (after k) ≡ done k ++ items_all (cmds k))
        (==→eq d i here)
        (ap (λ f. f ++ items_all (after d)) (update_self done d (done d ++ log))
          ∙ append_assoc (done d) log (items_all (after d))
          ∙ ap (◌++◌ (done d)) (sym kept))
  | inr other ↦
      let ne : d ≢ i = ground arith in rw (update_ne done d i (done d ++ log) ne, same i ne) refl
]

full_after :
    (cmds after : ℕ → List Command) (d : ℕ)
    → AllSome (after d)
    → ((j : ℕ) → d ≢ j → after j ≡ cmds j)
    → ((i : ℕ) → AllSome (cmds i))
    → (i : ℕ) → AllSome (after i)
full_after cmds after d here same all i = elim (Bool-cases (d == i)) [
  | inl at ↦ subst (λ k. AllSome (after k)) (==→eq d i at) here
  | inr other ↦ subst AllSome (sym (same i (ground arith))) (all i)
]

module _ {W : Type 0} (n oi : ℕ) (env : Env W) (law : Serves n oi env) (cmds : ℕ → List Command)
    (s : State W) (v : Flushing n oi cmds s) where
  -- The next report is served.
  pub write-Round :
      (e : Event) (es : List Event)
      → s.loop.task_queue ≡ []
      → s.loop.out.queue ≡ e ∷ es
      → Round n oi cmds s (once oi env true s)
  unfolding once once_rest queue_rest
  write-Round e es tasks queue =
      let q : Queued n cmds (e ∷ es) = subst (Queued n cmds) queue v.queued in
      let o : Out = record s.loop.out { queue = es } in
      let m : Moved true ⊥ n cmds (ident e) (write_event env.os o e s.world) =
        write_event-Moved env.os law.lawful n cmds o (IsValid-queue n cmds s.loop.out es v.valid) e
          q.0 q.1 true ⊥ s.world law.answers (v.full (ident e)) in
      let left_queue : m.served.step.out.queue ≡ es =
        write_event-queue env.os o e s.world m.served.step m.served.returns in
      rw (once-write n oi env law cmds s v e es tasks queue, m.served.returns)
        (record {
          after = m.served.after;
          left = record s {
            loop = record s.loop { out = m.served.step.out };
            world = m.served.step.world;
            done = behind s.done (ident e) m.served.step.log;
          };
          ends = refl;
          keeps = record {
            on = v.on;
            no_more = v.no_more;
            pollable = v.pollable;
            read = v.read;
            known = v.known;
            armed = v.armed;
            valid = m.served.valid;
            full =
                λ i. full_after cmds m.served.after (ident e) m.some_left m.served.others v.full i;
            queued =
                subst (Queued n m.served.after) (sym left_queue)
                  (Queued-after n cmds m.served.after (ident e) es m.served.others q.2 q.3);
          };
          less = omega (
            arith,
            lighter n cmds (ident e) (write_event env.os o e s.world) m q.1,
            count-others n cmds m.served.after (ident e) q.0 m.served.others,
            one_or_none m.served.step.out.queue,
          );
          done =
              behind_lem s.done cmds m.served.after (ident e) m.served.step.log m.kept
                m.served.others;
          ran = refl;
        })
