-- ===== src/Loop/Threads.antt =====
-- What the worker threads of a loop leave, and when `flush` returns: mpsrc/wavy_loop.cc.
use mpio.Prelude.{
  ℕ, zero, suc, ◌<◌, ◌≡◌, ◌≢◌, ◌⊎◌, refl, sym, ap, ◌∙◌, List, [], ◌∷◌, ◌++◌, append-nil,
  append_assoc, length, Option, none, some, Bool, true, inl, inr, arith,
}
use mpio.Os.{Errno}
use mpio.Pthread.{
  Call, thread_join, thread_detach, Pthread, plus, Result, check, create, join, detach,
}
use mpio.Loop.Workers.{
  Started, is_running, pushed, add_thread, start, detached, joined, join_each, cleared, join_all,
}

-- The threads that are there afterwards: those before, and behind them as many new ones as were asked
-- for, or fewer where an error ended the loop.
abbrev pub Added : {W : Type 0} → ℕ → List ℕ → Started × (List ℕ × W) → Type 0
Added num workers (Started.started, (workers', w)) =
    (made : List ℕ) × (workers' ≡ workers ++ made) × (length made ≡ num)
Added num workers (Started.throws_running, (workers', w)) =
    (workers' ≡ workers) × (is_running workers ≡ true)
Added num workers (Started.throws c, (workers', w)) =
    (made : List ℕ) × (workers' ≡ workers ++ made) × (length made < num)

module _ {W : Type 0} (pt : Pthread W) (this : ℕ) where
  Added-suc :
      (num : ℕ) (workers : List ℕ) (t : ℕ) (r : Started × (List ℕ × W))
      → r.0 ≢ Started.throws_running
      → Added num (workers ++ (t ∷ [])) r
      → Added (suc num) workers r
  Added-suc num workers t (Started.started, (ws, w)) ok (made, e, l) =
      (t ∷ made, e ∙ append_assoc workers (t ∷ []) made, ap suc l)
  Added-suc num workers t (Started.throws_running, (ws, w)) ok a = absurd (ok refl)
  Added-suc num workers t (Started.throws c, (ws, w)) ok (made, e, l) =
      (t ∷ made, e ∙ append_assoc workers (t ∷ []) made, omega (arith, l))

  -- `add_thread` never finds the loop running.
  abbrev NewThreads : ℕ → List ℕ → Started × (List ℕ × W) → Type 0
  NewThreads num workers r = (r.0 ≢ Started.throws_running) × Added num workers r

  pushed-Added :
      (num : ℕ) (workers : List ℕ) (next : List ℕ → W → Started × (List ℕ × W)) (r : Result ℕ × W)
      → ((ws : List ℕ) (w : W) → NewThreads num ws (next ws w))
      → NewThreads (suc num) workers (pushed pt this next workers r)
  pushed-Added num workers next (Result.gives t, w) ih =
      let (ok, a) = ih (workers ++ (t ∷ [])) w in
      (ok, Added-suc num workers t (next (workers ++ (t ∷ [])) w) ok a)
  pushed-Added num workers next (Result.throws c, w) ih =
      (λ e. absurd (cc), ([], sym (append-nil workers), omega arith))

  add_thread-NewThreads :
      (num : ℕ) (workers : List ℕ) (w : W)
      → NewThreads num workers (add_thread pt this num workers w)
  unfolding add_thread
  add_thread-NewThreads zero workers w = (λ e. absurd (cc), ([], sym (append-nil workers), refl))
  add_thread-NewThreads (suc num) workers w =
      pushed-Added num workers (add_thread pt this num) (create pt this w)
        (λ ws w'. add_thread-NewThreads num ws w')

  -- `start` makes as many threads as it is asked for; where a thread cannot be made, those that were
  -- made stay in the list, with no place held for the one that was not; and where the loop is running,
  -- it throws and makes none.
  pub start-Added :
      (num : ℕ) (workers : List ℕ) (w : W) → Added num workers (start pt this num workers w)
  unfolding start
  start-Added num [] w = (add_thread-NewThreads num [] w).1
  start-Added num (t ∷ ts) w = (refl, refl)

-- pthread_join(3) and pthread_detach(3): a call that returns 0 has joined or detached the thread, and it
-- stays so.
pub record IsReleasing {W : Type 0} (pt : Pthread W) (is_joined is_detached : W → ℕ → Bool)
    : Type 0 where
  pub joins :
      (w : W) (t : ℕ)
      → (pt.call w (thread_join t)).0 ≡ none
      → is_joined (pt.call w (thread_join t)).1 t ≡ true
  pub detaches :
      (w : W) (t : ℕ)
      → (pt.call w (thread_detach t)).0 ≡ none
      → is_detached (pt.call w (thread_detach t)).1 t ≡ true
  pub keeps_joined :
      (w : W) (c : Call) (t : ℕ) → is_joined w t ≡ true → is_joined (pt.call w c).1 t ≡ true
  pub keeps_detached :
      (w : W) (c : Call) (t : ℕ) → is_detached w t ≡ true → is_detached (pt.call w c).1 t ≡ true

module _ {W : Type 0} (pt : Pthread W) (is_joined is_detached : W → ℕ → Bool)
    (lawful : IsReleasing pt is_joined is_detached) where
  -- The thread is joined, or it is detached and joining it was a deadlock.
  abbrev pub Released : W → ℕ → Type 0
  Released w t =
      (is_joined w t ≡ true)
      ⊎ ((is_detached w t ≡ true)
          × ((before : W) × ((pt.call before (thread_join t)).0 ≡ some Errno.edeadlk)))

  abbrev pub AllReleased : W → List ℕ → Type 0
  AllReleased w [] = Unit
  AllReleased w (t ∷ ts) = Released w t × AllReleased w ts

  Released-call : (w : W) (c : Call) (t : ℕ) → Released w t → Released (pt.call w c).1 t
  Released-call w c t (inl j) = inl (lawful.keeps_joined w c t j)
  Released-call w c t (inr (d, why)) = inr (lawful.keeps_detached w c t d, why)

  -- Where the calls on the threads `ts` give no exception, they are released, and what was stays so.
  abbrev Ended : List ℕ → W → Result Unit × W → Type 0
  Ended ts w (Result.gives u, w') = AllReleased w' ts × ((t : ℕ) → Released w t → Released w' t)
  Ended ts w (Result.throws c, w') = Unit

  Ended-cons :
      (t : ℕ) (ts : List ℕ) (w w' : W) (r : Result Unit × W)
      → Released w' t
      → ((d : ℕ) → Released w d → Released w' d)
      → Ended ts w' r
      → Ended (t ∷ ts) w r
  Ended-cons t ts w w' (Result.gives u, w2) now kept (all, later) =
      ((later t now, all), λ d h. later d (kept d h))
  Ended-cons t ts w w' (Result.throws c, w2) now kept r = tt

  detached-Ended :
      (t : ℕ) (ts : List ℕ) (w : W) (next : W → Result Unit × W) (r : Option Errno × W)
      → (r.0 ≡ none → Released r.1 t)
      → ((d : ℕ) → Released w d → Released r.1 d)
      → ((w' : W) → Ended ts w' (next w'))
      → Ended (t ∷ ts) w (detached pt next (check plus r))
  detached-Ended t ts w next (none, w') now kept ih =
      Ended-cons t ts w w' (next w') (now refl) kept (ih w')
  detached-Ended t ts w next (some e, w') now kept ih = tt

  -- The thread `t` was to be joined in `w`.
  joined-Ended :
      (t : ℕ) (ts : List ℕ) (w : W) (next : W → Result Unit × W) (r : Option Errno × W)
      → pt.call w (thread_join t) ≡ r
      → (r.0 ≡ none → Released r.1 t)
      → ((d : ℕ) → Released w d → Released r.1 d)
      → ((w' : W) → Ended ts w' (next w'))
      → Ended (t ∷ ts) w (joined pt next t (check plus r))
  unfolding detach
  joined-Ended t ts w next (none, w') e now kept ih =
      Ended-cons t ts w w' (next w') (now refl) kept (ih w')
  joined-Ended t ts w next (some Errno.edeadlk, w') e now kept ih =
      detached-Ended t ts w next (pt.call w' (thread_detach t))
        (λ gone. inr (lawful.detaches w' t gone, (w, ap (λ p. p.0) e)))
        (λ d h. Released-call w' (thread_detach t) d (kept d h)) ih
  joined-Ended t ts w next (some Errno.eagain, w') e now kept ih = tt
  joined-Ended t ts w next (some Errno.eintr, w') e now kept ih = tt
  joined-Ended t ts w next (some Errno.einprogress, w') e now kept ih = tt
  joined-Ended t ts w next (some Errno.etimedout, w') e now kept ih = tt
  joined-Ended t ts w next (some Errno.ebusy, w') e now kept ih = tt
  joined-Ended t ts w next (some (Errno.other n), w') e now kept ih = tt

  join_each-Ended : (ts : List ℕ) (w : W) → Ended ts w (join_each pt ts w)
  unfolding join_each join
  join_each-Ended [] w = (tt, λ d h. h)
  join_each-Ended (t ∷ ts) w =
      joined-Ended t ts w (join_each pt ts) (pt.call w (thread_join t)) refl
        (λ gone. inl (lawful.joins w t gone)) (λ d h. Released-call w (thread_join t) d h)
        (λ w'. join_each-Ended ts w')

  -- Where `join` returns, no worker is left, and each was joined or, where that was a deadlock,
  -- detached; where it throws, the list is as before.
  abbrev pub Joined : List ℕ → Result Unit × (List ℕ × W) → Type 0
  Joined workers (Result.gives u, (workers', w')) = (workers' ≡ []) × AllReleased w' workers
  Joined workers (Result.throws c, (workers', w')) = workers' ≡ workers

  cleared-Joined :
      (workers : List ℕ) (w : W) (r : Result Unit × W)
      → Ended workers w r
      → Joined workers (cleared pt workers r)
  cleared-Joined workers w (Result.gives u, w') (all, kept) = (refl, all)
  cleared-Joined workers w (Result.throws c, w') r = refl

  -- Where `join` returns, no worker is left, and each was joined or, where joining it was a
  -- deadlock, detached; where it throws, the list is as before.
  pub join_all-Joined : (workers : List ℕ) (w : W) → Joined workers (join_all pt workers w)
  unfolding join_all
  join_all-Joined workers w =
      cleared-Joined workers w (join_each pt workers w) (join_each-Ended workers w)
