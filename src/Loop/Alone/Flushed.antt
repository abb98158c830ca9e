-- ===== src/Loop/Alone/Flushed.antt =====
-- `flush` of mpsrc/wavy_loop.cc in a program without worker threads: it returns, with every byte sent and
-- every task run.
use mpio.Prelude.{
  ℕ, zero, suc, ◌<◌, ◌≡◌, refl, sym, ap, ◌∙◌, List, [], ◌∷◌, ◌++◌, append-nil, Bool, true, false,
  not, ◌&&◌, is_empty, Bool-cases, inl, inr, ==→eq, arith,
}
use mpio.Family.{count-some}
use mpio.Xfer.Command.{Command}
use mpio.Xfer.Items.{items_all}
use mpio.Xfer.Buffer.{empty}
use mpio.Out.{Event, is_idle}
use mpio.Out.Valid.{busy, is_idle_iff, is_empty-Holds}
use mpio.Loop.Alone.{Env, State, Ended, returns, once, flush}
use mpio.Loop.Alone.Rounds.{Flushing, Round, measure, Serves, task-Round}
use mpio.Loop.Alone.Writes.{write-Round}
use mpio.Loop.Alone.Polls.{poll-Round}

-- What `flush` leaves: every buffer is empty and what it held is done, in order; no task is queued, and
-- those that were have run, in order.
pub record Flushed {W : Type 0} (n : ℕ) (cmds : ℕ → List Command) (s : State W)
    (r : Ended (State W)) : Type 0 where
  pub left : State W
  pub ends : r ≡ returns left
  pub emptied : (i : ℕ) → i < n → empty (left.loop.out.fdctx i) ≡ true
  pub done : (i : ℕ) → i < n → left.done i ≡ s.done i ++ items_all (cmds i)
  pub no_task : left.loop.task_queue ≡ []
  pub ran : left.ran ≡ s.ran ++ s.loop.task_queue

watched : (cs : List Command) → 0 < busy cs → not (is_empty cs) ≡ true
watched [] h = absurd (omega arith)
watched (c ∷ cs) h = refl

both : (a b : Bool) → (a && b) ≡ true → (a ≡ true) × (b ≡ true)
both true b h = (refl, h)
both false b h = cc

none_left {ℓ} : {A : Type ℓ} (xs : List A) → is_empty xs ≡ true → xs ≡ []
none_left [] h = refl
none_left (x ∷ xs) h = cc

module _ {W : Type 0} (n oi : ℕ) (env : Env W) (law : Serves n oi env) where
  -- A round of the loop, whatever there is to do.
  any-Round :
      (cmds : ℕ → List Command) (s : State W) (ts : List ℕ) (es : List Event)
      → Flushing n oi cmds s
      → s.loop.task_queue ≡ ts
      → s.loop.out.queue ≡ es
      → (is_idle s.loop.out && is_empty ts) ≡ false
      → Round n oi cmds s (once oi env true s)
  any-Round cmds s (t ∷ ts) es v tasks queue busy_ = task-Round n oi env law cmds s v t ts tasks
  any-Round cmds s [] (e ∷ es) v tasks queue busy_ =
      write-Round n oi env law cmds s v e es tasks queue
  any-Round cmds s [] [] v tasks queue busy_ =
      let some : 0 < s.loop.out.watching = ground arith in
      let (i, lt, b) = count-some busy n cmds (omega (arith, v.valid.counted, some)) in
      poll-Round n oi env law cmds s v i lt (watched (cmds i) b) tasks queue

  stops :
      (cmds : ℕ → List Command) (s : State W)
      → Flushing n oi cmds s
      → (is_idle s.loop.out && is_empty s.loop.task_queue) ≡ true
      → Flushed n cmds s (returns s)
  stops cmds s v idle =
      let (no_watched, no_tasks) = both (is_idle s.loop.out) (is_empty s.loop.task_queue) idle in
      let no_fd : s.loop.out.watching ≡ 0 = ==→eq s.loop.out.watching 0 no_watched in
      let no_task : s.loop.task_queue ≡ [] = none_left s.loop.task_queue no_tasks in
      let all : (i : ℕ) → i < n → empty (s.loop.out.fdctx i) ≡ true =
        (is_idle_iff n cmds s.loop.out v.valid).0 no_fd in
      record {
        left = s;
        ends = refl;
        emptied = all;
        done = λ i lt.
            let empty_i : cmds i ≡ [] =
              none_left (cmds i)
                (sym (is_empty-Holds (cmds i) (s.loop.out.fdctx i) (v.valid.holds i)) ∙ all i lt) in
            sym (append-nil (s.done i)) ∙ ap (λ c. s.done i ++ items_all c) (sym empty_i);
        no_task = no_task;
        ran = sym (append-nil s.ran) ∙ ap (◌++◌ s.ran) (sym no_task);
      }

  -- Without workers, before the end flag is set, where `m_pollable` is set, no event waits in the
  -- backlog or to be handled again, the loop's kernel object has out's armed, the queued reports
  -- are of different watched descriptors, no command is empty, the kernel takes some of each
  -- request that is not empty, a blocking wait gives the event of out's kernel object, and no
  -- other, while a descriptor is registered with that, its wait gives some registered
  -- descriptors, and a task asks nothing of the loop: `flush` returns; every buffer is empty and
  -- what it held is done, in order; and the queued tasks have run, in order.
  pub flush-Flushed :
      (fuel : ℕ) (cmds : ℕ → List Command) (s : State W)
      → Flushing n oi cmds s
      → measure n oi cmds s < fuel
      → Flushed n cmds s (flush oi env fuel s)
  unfolding flush
  flush-Flushed zero cmds s v enough = absurd (omega (arith, enough))
  flush-Flushed (suc fuel) cmds s v enough =
      elim (Bool-cases (is_idle s.loop.out && is_empty s.loop.task_queue)) [
        | inl idle ↦ rw idle (stops cmds s v idle)
        | inr busy_ ↦
            let r : Round n oi cmds s (once oi env true s) =
              any-Round cmds s s.loop.task_queue s.loop.out.queue v refl refl busy_ in
            let f : Flushed n r.after r.left (flush oi env fuel r.left) =
              flush-Flushed fuel r.after r.left r.keeps (omega (arith, r.less, enough)) in
            rw (busy_, r.ends, f.ends)
              (record {
                left = f.left;
                ends = refl;
                emptied = f.emptied;
                done = λ i lt. f.done i lt ∙ r.done i;
                no_task = f.no_task;
                ran = f.ran ∙ r.ran;
              })
      ]
