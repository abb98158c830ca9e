-- ===== src/Tests/Descriptors.antt =====
-- The theorems on the code that makes descriptors at a kernel that knows the next free one.
use mpio.Prelude.{
  List, [], ◌∷◌, ◌>>=◌, ℕ, ◌+◌, ◌≡◌, refl, ap, Option, none, some, Bool, true, false, ltb, ◌&&◌,
  if◌then◌else◌, ◌==◌, Bool-cases, inl, inr, arith,
}
use mathlib.Core.Path.{subst}
use mpio.Family.{update}
use mpio.Os.{Errno, Reply}
use mpio.Posix.{Posix, Create, Request, Timespec, SameOpen, IsLawful}
use mpio.Posix.Opened.{Made}
use mpio.Kernel.{ident, events, pack}
use mpio.Kernel.Bits.{ident-events-pack}
use mpio.Connect.{Called}
use mpio.Connect.Result.{Settled}
use mpio.Connect.Pack.{connect}
use mpio.Connect.Pack.Once.{Once, connect-Once}
use mpio.Tests.Alone.{two_tasks}
use mpio.Handlers.{Table}
use mpio.Lock.{Use, unlocks, relocks, run, create}
use mpio.Lock.Balance.{Balanced, scoped-Balanced}
use mpio.Listen.{given, on_read, listen}
use mpio.Listen.Result.{Reading, EndsWithin, listen-Made, on_read-Reading}

-- The next descriptor, and of those below it which are open.
abbrev pub World : Type 0
World = ℕ × (ℕ → Bool)

abbrev pub is_open : World → ℕ → Bool
is_open w d = ltb d w.0 && w.1 d

abbrev taken : World → Reply × World
taken w = (Reply.done w.0, (w.0 + 1, update w.1 w.0 true))

-- Only descriptors below 12 are accepted.
abbrev made : World → Create → Reply × World
made w (Create.socket family type protocol) = taken w
made w (Create.accept fd) = if ltb w.0 12 then taken w else (Reply.failed Errno.eagain, w)
made w Create.timerfd_create = taken w
made w (Create.signalfd signo) = taken w
made w Create.epoll_create = taken w
made w Create.kqueue = taken w

-- A connection is in progress until it is polled.
abbrev asked : Request → Reply
asked (Request.connect addr) = Reply.failed Errno.einprogress
asked (Request.poll t) = Reply.done 1
asked _ = Reply.done 0

abbrev pub kernel : Posix World
kernel = record {
  create = made;
  request = λ w fd r. (asked r, w);
  close = λ w fd. (w.0, update w.1 fd false);
  getrlimit = λ w. (Reply.done 1024, w);
}

abbrev is_done : Reply → ℕ
is_done (Reply.done n) = 1
is_done (Reply.failed e) = 0

abbrev value : Reply → ℕ
value (Reply.done n) = n
value (Reply.failed e) = 0

taken-Opened :
    (w : World) (fd : ℕ)
    → Reply.done w.0 ≡ Reply.done fd
    → mpio.Posix.Opened is_open fd w (taken w).1
taken-Opened w fd e =
    let same : w.0 ≡ fd = ap value e in (ground (arith, same), λ d. ground (arith, same))

pub kernel-IsLawful : IsLawful kernel is_open
kernel-IsLawful = record {
  create_done = done_lem;
  create_failed = failed_lem;
  request_keeps = λ w fd r d. refl;
  getrlimit_keeps = λ w d. refl;
  close_closes = λ w fd d. ground arith;
}
  where
    done_lem :
        (w : World) (c : Create) (fd : ℕ)
        → (made w c).0 ≡ Reply.done fd
        → mpio.Posix.Opened is_open fd w (made w c).1
    done_lem w (Create.socket a b c) fd e = taken-Opened w fd e
    done_lem w (Create.accept a) fd e = elim (Bool-cases (ltb w.0 12)) [
      | inl more ↦ rw more (taken-Opened w fd (rw more at e))
      | inr none_left ↦ absurd (let h : 0 ≡ 1 = ap is_done (rw none_left at e) in omega arith)
    ]
    done_lem w Create.timerfd_create fd e = taken-Opened w fd e
    done_lem w (Create.signalfd a) fd e = taken-Opened w fd e
    done_lem w Create.epoll_create fd e = taken-Opened w fd e
    done_lem w Create.kqueue fd e = taken-Opened w fd e

    failed_lem :
        (w : World) (c : Create) (e : Errno)
        → (made w c).0 ≡ Reply.failed e
        → SameOpen is_open w (made w c).1
    failed_lem w (Create.socket a b c) r e = absurd (let h : 1 ≡ 0 = ap is_done e in omega arith)
    failed_lem w (Create.accept a) r e = elim (Bool-cases (ltb w.0 12)) [
      | inl more ↦ absurd (let h : 1 ≡ 0 = ap is_done (rw more at e) in omega arith)
      | inr none_left ↦ rw none_left (λ d. refl)
    ]
    failed_lem w Create.timerfd_create r e = absurd (let h : 1 ≡ 0 = ap is_done e in omega arith)
    failed_lem w (Create.signalfd a) r e = absurd (let h : 1 ≡ 0 = ap is_done e in omega arith)
    failed_lem w Create.epoll_create r e = absurd (let h : 1 ≡ 0 = ap is_done e in omega arith)
    failed_lem w Create.kqueue r e = absurd (let h : 1 ≡ 0 = ap is_done e in omega arith)

abbrev pub start : World
start = (10, λ d. true)

abbrev second : Timespec
second = record { tv_sec = 1; tv_nsec = 0 }

ident-events-pack_example :
    (ident (record { udata = pack 5 1 }) ≡ 5) × (events (record { udata = pack 5 1 }) ≡ 1)
ident-events-pack_example = ident-events-pack 5 1 (omega arith) (omega arith)

abbrev two_seconds : Option Timespec
two_seconds = some (record { tv_sec = 2; tv_nsec = 500000 })

connect-Once_example :
    (c : Called) × (w : World) × Settled kernel is_open kernel-IsLawful start c w
    × Once
        (λ size h. some 4096)
        kernel
        1
        none
        (connect (λ size h. some 4096) 2 1 0 77 16 two_seconds)
        (λ i. none)
        two_tasks
        4096
        start
        c
        w
connect-Once_example =
    connect-Once (λ size h. some 4096) kernel is_open kernel-IsLawful 1 none 2 1 0 77 16 4096
      two_seconds (λ i. none) two_tasks start refl refl (λ fd w e. omega (arith, ap is_done e))

listen-Made_example : Made is_open start (listen kernel 3 2 1 0 77 8 start)
listen-Made_example = listen-Made kernel is_open kernel-IsLawful 3 2 1 0 77 8 start

-- The callback takes the first socket and throws at the second.
abbrev takes_ten : ℕ → World → Bool × World
takes_ten sock w = (sock == 10, w)

-- What is left to end within the rounds once a socket is given to the callback.
abbrev Rest : ℕ → World → ℕ → Type 0
Rest rounds w sock =
    EndsWithin kernel (λ e w. w) takes_ten rounds 4
      (given kernel (λ e w. w) takes_ten sock (takes_ten sock w))

two_accepts : EndsWithin kernel (λ e w. w) takes_ten 3 4 start
two_accepts s e = subst (Rest 2 (taken start).1) (ap value e) (λ s' e'.
    subst (Rest 1 (taken (taken start).1).1) (ap value e')
      (λ s'' e''. let h : 0 ≡ 1 = ap is_done e'' in omega arith))

on_read-Reading_example :
    Reading kernel
      (λ e w. w)
      takes_ten
      is_open
      4
      start
      (on_read kernel (λ e w. w) takes_ten 3 4 start)
on_read-Reading_example =
    on_read-Reading kernel (λ e w. w) takes_ten is_open kernel-IsLawful (λ s w d. refl)
      (λ e w d. refl) 3 4 start two_accepts

abbrev no_handlers : Table
no_handlers d = false

-- Lock 4 is taken, given up, and taken again; then lock 5 is asked for in vain.
abbrev uses : List Use
uses = unlocks ∷ relocks 4 true ∷ relocks 5 false ∷ []

scoped-Balanced_example :
    Balanced
      (λ d. 0)
      (run uses (create 4 true (λ d. 0)).0 (create 4 true (λ d. 0)).1 >>= λ (s, h).
        mpio.Lock.destroy s h)
scoped-Balanced_example = scoped-Balanced 4 true uses (λ d. 0)
