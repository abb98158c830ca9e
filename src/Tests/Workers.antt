-- ===== src/Tests/Workers.antt =====
-- The theorems on the threads of mpsrc/wavy_loop.cc, where a thread cannot join itself.
use mpio.Prelude.{
  ℕ, ◌≡◌, refl, [], ◌∷◌, Option, none, some, Bool, true, false, ◌==◌, Bool-cases, inl, inr,
  if◌then◌else◌, arith,
}
use mpio.Os.{Errno}
use mpio.Family.{update}
use mpio.Pthread.{Call, thread_join, thread_detach, Created, Pthread}
use mpio.Loop.Workers.{join_all}
use mpio.Loop.Threads.{IsReleasing, Joined, join_all-Joined}

-- Those that are joined, and those that are detached.
abbrev World : Type 0
World = (ℕ → Bool) × (ℕ → Bool)

abbrev is_joined : World → ℕ → Bool
is_joined w = w.0

abbrev is_detached : World → ℕ → Bool
is_detached w = w.1

-- Thread 3 is the caller.
abbrev asked : World → Call → Option Errno × World
asked w (thread_join t) =
    if t == 3 then (some Errno.edeadlk, w) else (none, (update w.0 t true, w.1))
asked w (thread_detach t) = (none, (w.0, update w.1 t true))
asked w _ = (some Errno.ebusy, w)

abbrev threads : Pthread World
threads = record { create = λ w user. (Created.refused Errno.eagain, w); call = asked }

still : (f : ℕ → Bool) (t d : ℕ) → f d ≡ true → update f t true d ≡ true
still f t d h = elim (Bool-cases (t == d)) [ inl same ↦ rw same refl | inr other ↦ rw other h ]

threads-IsReleasing : IsReleasing threads is_joined is_detached
threads-IsReleasing = record {
  joins = λ w t h. elim (Bool-cases (t == 3)) [
    | inl self ↦
        absurd (let e : ◌≡◌ {A = Option Errno} (some Errno.edeadlk) none = rw self at h in cc)
    | inr other ↦ rw other (ground arith)
  ];
  detaches = λ w t h. ground arith;
  keeps_joined = joined_lem;
  keeps_detached = detached_lem;
}
  where
    joined_lem :
        (w : World) (c : Call) (d : ℕ) → is_joined w d ≡ true → is_joined (asked w c).1 d ≡ true
    joined_lem w (thread_join t) d h = elim (Bool-cases (t == 3)) [
      | inl self ↦ rw self h
      | inr other ↦ rw other (still w.0 t d h)
    ]
    joined_lem w (thread_detach t) d h = h
    joined_lem w _ d h = h

    detached_lem :
        (w : World) (c : Call) (d : ℕ) → is_detached w d ≡ true → is_detached (asked w c).1 d ≡ true
    detached_lem w (thread_join t) d h = elim (Bool-cases (t == 3)) [
      | inl self ↦ rw self h
      | inr other ↦ rw other h
    ]
    detached_lem w (thread_detach t) d h = still w.1 t d h
    detached_lem w _ d h = h

abbrev world : World
world = (λ t. false, λ t. false)

join_all-Joined_example :
    Joined threads is_joined is_detached threads-IsReleasing
      (2 ∷ 3 ∷ [])
      (join_all threads (2 ∷ 3 ∷ []) world)
join_all-Joined_example =
    join_all-Joined threads is_joined is_detached threads-IsReleasing (2 ∷ 3 ∷ []) world
