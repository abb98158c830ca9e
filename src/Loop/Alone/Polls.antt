-- ===== src/Loop/Alone/Polls.antt =====
-- A round of `flush` (mpsrc/wavy_loop.cc) without worker threads that polls.
use mathlib.Core.Path.{subst}
use mpio.Prelude.{
  ℕ, ◌<◌, ◌≡◌, refl, sym, ◌∙◌, List, [], ◌∷◌, true, false, not, is_empty, take, drop, ◌==◌, arith,
  if◌then◌else◌,
}
use mpio.Os.{Reply}
use mpio.Family.{update}
use mpio.Xfer.Command.{Command}
use mpio.Out.{Out, Event, ident, poll_event}
use mpio.Out.Valid.{IsValid}
use mpio.Loop.{Loop, arming, reactivate, found, process, after_poll, disarm}
use mpio.Loop.Alone.{Env, State, event_rest, polled, filled, once_rest, once}
use mpio.Loop.Alone.Rounds.{
  Queued, Flushing, Round, IsValid-queue, Registered, Reports, Wakes, Serves, once-poll,
}

Queued-Registered :
    (n : ℕ) (cmds : ℕ → List Command) (o : Out) (es : List Event)
    → IsValid n cmds o
    → Registered n o es
    → Queued n cmds es
Queued-Registered n cmds o [] v r = tt
Queued-Registered n cmds o (e ∷ es) v r = (
  r.0,
  (λ z. busy_one (cmds (ident e)) z (sym (v.registered (ident e)) ∙ r.1)),
  r.2,
  Queued-Registered n cmds o es v r.3,
)
  where
    busy_one : (cs : List Command) → cs ≡ [] → not (is_empty cs) ≡ true → ⊥
    busy_one [] z h = cc
    busy_one (c ∷ cs) z h = cc

-- The event of out's kernel object: its reports are queued.
after_poll-own :
    (oi num : ℕ) (ready q : List Event) (reply : Reply) (ev : Event) (l : Loop)
    → ident ev ≡ oi
    → l.out.queue ≡ []
    → reply ≡ Reply.done num
    → take num ready ≡ q
    → after_poll oi reply ready (ev ∷ []) l ≡ (
      arming ev,
      record l {
        off = 1;
        num = 1;
        pollable = true;
        backlog = ev ∷ drop 1 l.backlog;
        out = record l.out { queue = q };
      },
    )
unfolding after_poll found process poll_event
after_poll-own oi num ready q reply ev l own none_left replies gives =
    let same : (ident ev == oi) ≡ true = ground arith in rw (same, replies, none_left, gives) refl

module _ {W : Type 0} (n oi : ℕ) (env : Env W) (law : Serves n oi env) (cmds : ℕ → List Command)
    (s : State W) (v : Flushing n oi cmds s) where
  polled-one :
      (l : Loop) (ev : Event) (rest : List Event) (r : (Reply × List Event) × W)
      → r.0 ≡ (Reply.done 1, ev ∷ rest)
      → polled oi env true s l r ≡ filled oi env s l r.1 (ev ∷ [])
  unfolding polled
  polled-one l ev rest r e =
      subst (λ p. polled oi env true s l (p, r.1) ≡ filled oi env s l r.1 (ev ∷ [])) (sym e) refl

  rearmed : (d : ℕ) (f : ℕ → ℕ) → d ≡ oi → (if s.loop.registered d then update f d 1 else f) oi ≡ 1
  rearmed d f same = rw (same, v.known) (ground arith)

  -- The loop's kernel object reports out's, and that reports descriptors.
  pub poll-Round :
      (i : ℕ)
      → i < n
      → not (is_empty (cmds i)) ≡ true
      → s.loop.task_queue ≡ []
      → s.loop.out.queue ≡ []
      → Round n oi cmds s (once oi env true s)
  unfolding once once_rest event_rest
  poll-Round i lt watched tasks queue =
      let l : Loop = record s.loop { pollable = false } in
      let k : Wakes oi (env.wait true l s.world).0 =
        law.wakes l s.world i v.armed lt (v.valid.registered i ∙ watched) in
      let w : W = (env.wait true l s.world).1 in
      let r : Reports n l.out (env.ready l w) =
        law.reports l w i queue lt (v.valid.registered i ∙ watched) in
      let q : List Event = r.first ∷ r.others in
      rw
        (
          once-poll n oi env law cmds s v tasks queue,
          polled-one l k.event k.rest (env.wait true l s.world) k.replies,
          after_poll-own oi r.num (env.ready l w).1 q (env.ready l w).0 k.event
              (disarm (k.event ∷ []) l) k.own queue r.replies r.gives,
        )
        (record {
          after = cmds;
          left = record s {
            loop = reactivate k.event (record (disarm (k.event ∷ []) l) {
              off = 1;
              num = 1;
              pollable = true;
              backlog = k.event ∷ drop 1 l.backlog;
              out = record l.out { queue = q };
            });
            world = w;
          };
          ends = refl;
          keeps = record {
            on = v.on;
            no_more = v.no_more;
            pollable = refl;
            read = refl;
            known = v.known;
            armed = rearmed (ident k.event) (disarm (k.event ∷ []) l).armed k.own;
            valid = IsValid-queue n cmds s.loop.out q v.valid;
            full = v.full;
            queued = Queued-Registered n cmds l.out q v.valid r.registered;
          };
          less = rw queue (omega arith);
          done = λ j. refl;
          ran = refl;
        })
