-- ===== src/Tests/Alone.antt =====
-- The theorems on a loop without worker threads (mpsrc/wavy_loop.cc) at a kernel that takes at most three
-- bytes a call and reports the last descriptor that is registered.
use mpio.Prelude.{
  ℕ, zero, suc, ◌^◌, ◌<◌, ◌≡◌, refl, sym, ap, ◌∙◌, take, ◌%◌, List, [], ◌∷◌, Bool, true, false,
  Bool-cases, inl, inr, ◌==◌, if◌then◌else◌, arith,
}
use native.Mathlib.Decide.{dec_lt}
use mpio.Os.{Reply}
use mpio.Family.{update, count}
use mpio.Xfer.Items.{range, items, items_vec}
use mpio.Out.{Event, KernelCall}
use mpio.Out.Valid.{is_registered}
use mpio.Loop.{Loop}
use mpio.Loop.Alone.{asks_next, submits, Env, State, Ended, once, flush}
use mpio.Loop.Alone.Rounds.{Serves, Flushing, measure}
use mpio.Loop.Alone.Flushed.{Flushed, flush-Flushed}
use mpio.Loop.Alone.Waits.{Awake, once-Awake, flush_spins}
use mpio.Tests.Sending.{slow, slow-IsLawful, two_commands, watched, watched-IsValid, nothing}
use mpio.Tests.Queues.{slow-Answers, two_commands-AllSome}

last_registered : ℕ → List KernelCall → List Event
last_registered zero calls = []
last_registered (suc n) calls =
    let rest = last_registered n calls in if is_registered n calls then n ∷ [] else rest

-- The loop's kernel object always reports descriptor 6, which is out's; a task does nothing.
abbrev env : Env ℕ
env = record {
  os = slow;
  wait = λ block l w. ((Reply.done 1, 6 ∷ []), w);
  ready = λ l w. (Reply.done 1, last_registered 8 l.out.calls);
  handle = λ e w. ((asks_next ∷ submits 3 ∷ [], true), w);
  task = λ t w. ([], w);
}

last_registered-lem :
    (n i : ℕ) (calls : List KernelCall)
    → i < n
    → is_registered i calls ≡ true
    → (e : ℕ) × (last_registered n calls ≡ e ∷ []) × (e < n) × (is_registered e calls ≡ true)
unfolding last_registered
last_registered-lem zero i calls lt r = absurd (omega arith)
last_registered-lem (suc n) i calls lt r = elim (Bool-cases (is_registered n calls)) [
  | inl here ↦ rw here (n, refl, omega arith, here)
  | inr before ↦ rw before (elim (dec_lt i n) [
    | yes less ↦
        let (e, same, le, reg) = last_registered-lem n i calls less r in
        (e, same, omega (arith, le), reg)
    | no at ↦
        let last : i ≡ n = omega (arith, at, lt) in
        absurd (apart (sym before ∙ ap (λ k. is_registered k calls) (sym last) ∙ r))
  ])
]
  where
    apart : ◌≡◌ {A = Bool} false true → ⊥
    apart h = cc

env-Serves : Serves 8 6 env
env-Serves = record {
  lawful = slow-IsLawful;
  answers = slow-Answers ⊥;
  wakes = λ l w i armed lt r. record { event = 6; rest = []; own = refl; replies = refl };
  reports = λ l w i queue lt r.
      let (e, same, le, reg) = last_registered-lem 8 i l.out.calls lt r in
      let small : e % 2 ^ 32 ≡ e = omega (arith, le) in
      record {
        num = 1;
        first = e;
        others = [];
        replies = refl;
        gives = ap (take 1) same;
        registered = (omega (arith, small, le), rw small reg, tt, tt);
      };
  quiet = λ t w. refl;
}

-- Descriptor 5 is watched, and two tasks are queued.
abbrev pub two_tasks : Loop
two_tasks = record {
  off = 0;
  num = 0;
  pollable = true;
  backlog = [];
  more_queue = [];
  task_queue = 8 ∷ 9 ∷ [];
  end_flag = false;
  handlers = λ d. d == 7;
  out = watched;
  registered = λ d. true;
  armed = λ d. 1;
}

abbrev state : State ℕ
state = record { loop = two_tasks; world = 0; done = λ d. []; ran = [] }

state-Flushing : Flushing 8 6 (update nothing 5 two_commands) state
state-Flushing = record {
  on = refl;
  no_more = refl;
  pollable = refl;
  read = refl;
  known = refl;
  armed = refl;
  valid = watched-IsValid;
  full = λ i. elim (Bool-cases (5 == i)) [
    | inl here ↦ rw here two_commands-AllSome
    | inr other ↦ rw other tt
  ];
  queued = tt;
}

few : measure 8 6 (update nothing 5 two_commands) state < 20
unfolding count items items_vec range
few = omega arith

flush-Flushed_example : Flushed 8 (update nothing 5 two_commands) state (flush 6 env 20 state)
flush-Flushed_example =
    flush-Flushed 8 6 env env-Serves 20 (update nothing 5 two_commands) state state-Flushing few

once-Awake_example : Awake 6 env (once 6 env false state)
once-Awake_example = once-Awake 6 env false state refl

flush_spins_example :
    flush 6 env 1000 (record state { loop = record two_tasks { end_flag = true } })
    ≡ Ended.out_of_fuel
flush_spins_example =
    flush_spins 6 env 1000 (record state { loop = record two_tasks { end_flag = true } }) refl refl
