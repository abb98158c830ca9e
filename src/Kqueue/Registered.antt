-- ===== src/Kqueue/Registered.antt =====
-- What mpsrc/wavy_kernel_kqueue.h registers with kqueue, and what its timers and signals leave.
use mpio.Prelude.{ℕ, ◌≡◌, ◌≢◌, refl, ap, ◌∙◌, ◌&&◌, ◌==◌, Bool, false, Option, none, some, arith}
use mpio.Os.{Reply, Errno}
use mpio.Posix.{Posix, Create, SameOpen, Opened, Timespec}
use mpio.Posix.Opened.{Opened-SameOpen, close-Opened}
use mpio.Kqueue.{
  same_filter, new, limited, Filter, evfilt_read, evfilt_write, evfilt_timer, evfilt_signal,
  evfilt_other, add_oneshot, delete, Kevent, Kernel, alloc_xident, ident, msec, first_msec,
  set_event, add_timer, add_signal, destroy_timer, destroy_signal, or_free, with_xident, reactivate,
  reactivate_filter, remove_timer, remove_signal, add_fd,
}
use mpio.Kqueue.Slots.{Took, Allocated, alloc_xident-Allocated, free_xident-Took}

-- kevent(2), by what is registered in a world: for a filter and an identifier the data and the user data.
pub record IsLawful {W : Type 0} (kevent : W → Kevent → Reply × W)
    (registered : W → Filter → ℕ → Option (ℕ × ℕ)) : Type 0 where
  pub adds :
      (w : W) (e : Kevent) (n : ℕ)
      → e.flags ≡ add_oneshot
      → (kevent w e).0 ≡ Reply.done n
      → registered (kevent w e).1 e.filter e.kident ≡ some (e.kdata, e.udata)
  pub deletes :
      (w : W) (e : Kevent) (n : ℕ)
      → e.flags ≡ delete
      → (kevent w e).0 ≡ Reply.done n
      → registered (kevent w e).1 e.filter e.kident ≡ none
  pub keeps :
      (w : W) (e : Kevent) (f : Filter) (i : ℕ)
      → (same_filter e.filter f && (e.kident == i)) ≡ false
      → registered (kevent w e).1 f i ≡ registered w f i

module _ {W : Type 0} (kevent : W → Kevent → Reply × W)
    (registered : W → Filter → ℕ → Option (ℕ × ℕ)) (lawful : IsLawful kevent registered) where
  -- What is left where a timer or a signal is added: a new identifier, with what is registered for it;
  -- or no identifier more than before.
  abbrev pub Armed : Kernel → Filter → (ℕ → ℕ) → (ℕ → ℕ × ℕ) → Reply × (Kernel × W) → Type 0
  Armed k f i r (Reply.done id, (k', w')) = Took k id k' × (registered w' f (i id) ≡ some (r id))
  Armed k f i r (Reply.failed e, (k', w')) = (x : ℕ) → k'.xident x ≡ k.xident x

  or_free-Armed :
      (k k' : Kernel) (f : Filter) (i : ℕ → ℕ) (r : ℕ → ℕ × ℕ) (id : ℕ) (s : Reply × W)
      → Took k id k'
      → ((n : ℕ) → s.0 ≡ Reply.done n → registered s.1 f (i id) ≡ some (r id))
      → Armed k f i r (or_free kevent id k' s)
  or_free-Armed k k' f i r id (Reply.done n, w) t set = (t, set n refl)
  or_free-Armed k k' f i r id (Reply.failed e, w) t set = (free_xident-Took k k' id t).1

  with_xident-Armed :
      (k : Kernel) (f : Filter) (i : ℕ → ℕ) (r : ℕ → ℕ × ℕ) (w : W) (a : Option ℕ × Kernel)
      (set : ℕ → Reply × W)
      → Allocated k a
      → ((id n : ℕ) → (set id).0 ≡ Reply.done n → registered (set id).1 f (i id) ≡ some (r id))
      → Armed k f i r (with_xident kevent w a set)
  with_xident-Armed k f i r w (none, k') set a h = λ x. ap (λ g. g x) a.kept
  with_xident-Armed k f i r w (some id, k') set a h = or_free-Armed k k' f i r id (set id) a (h id)

  -- `add_timer` returns an identifier that was not given out, for which a timer is registered with its
  -- first time and its interval in milliseconds; or -1 with the identifiers as before.
  pub add_timer-Armed :
      (value interval : Option Timespec) (k : Kernel) (w : W)
      → Armed k evfilt_timer
          (λ id. id)
          (λ id. (first_msec value interval, msec interval))
          (add_timer kevent value interval k w)
  unfolding add_timer set_event
  add_timer-Armed value interval k w =
      with_xident-Armed k evfilt_timer (λ id. id) (λ id. (first_msec value interval, msec interval))
        w (alloc_xident k) _ (alloc_xident-Allocated k) (λ id n e. lawful.adds w _ n refl e)

  -- `add_signal` likewise; the filter is registered for the signal, with the identifier as its data.
  pub add_signal-Armed :
      (signo : ℕ) (k : Kernel) (w : W)
      → Armed k evfilt_signal (λ id. signo) (λ id. (0, id)) (add_signal kevent signo k w)
  unfolding add_signal set_event
  add_signal-Armed signo k w =
      with_xident-Armed k evfilt_signal (λ id. signo) (λ id. (0, id)) w (alloc_xident k) _
        (alloc_xident-Allocated k) (λ id n e. lawful.adds w _ n refl e)

  -- A timer that is made and destroyed leaves the identifiers as they were before; and where kevent(2)
  -- deletes it, nothing is registered for its identifier.
  pub destroy_timer-add_timer :
      (value interval : Option Timespec) (k k' : Kernel) (w w' : W) (id n : ℕ)
      → add_timer kevent value interval k w ≡ (Reply.done id, (k', w'))
      → (remove_timer kevent id w').0 ≡ Reply.done n
      → ((x : ℕ) → (destroy_timer kevent (some id) k' w').0.xident x ≡ k.xident x)
        × (registered (destroy_timer kevent (some id) k' w').1 evfilt_timer id ≡ none)
  unfolding destroy_timer remove_timer set_event
  destroy_timer-add_timer value interval k k' w w' id n e deleted =
      let added : Armed k evfilt_timer (λ id. id) (λ id. (first_msec value interval, msec interval))
          (add_timer kevent value interval k w) =
        add_timer-Armed value interval k w in
      ((free_xident-Took k k' id (rw e at added).0).1, lawful.deletes w' _ n refl deleted)

  -- Where a signal was added and its number is not its identifier, the destructor deletes the
  -- filter of the identifier: the filter of the signal stays registered with the identifier,
  -- which is free again.
  pub destroy_signal_stays :
      (signo : ℕ) (k k' : Kernel) (w w' : W) (id : ℕ)
      → add_signal kevent signo k w ≡ (Reply.done id, (k', w'))
      → signo ≢ id
      → ((x : ℕ) → (destroy_signal kevent (some id) k' w').0.xident x ≡ k.xident x)
        × (registered (destroy_signal kevent (some id) k' w').1 evfilt_signal signo ≡ some (0, id))
  unfolding destroy_signal remove_signal set_event
  destroy_signal_stays signo k k' w w' id e ne =
      let added : Armed k evfilt_signal (λ id. signo) (λ id. (0, id))
          (add_signal kevent signo k w) =
        add_signal-Armed signo k w in
      (
        (free_xident-Took k k' id (rw e at added).0).1,
        lawful.keeps w' _ evfilt_signal signo (ground (arith, ne)) ∙ (rw e at added).1,
      )

  -- The data with which an event is registered again: the interval of a timer.
  abbrev pub again : Filter → Kevent → ℕ × ℕ
  again evfilt_timer e = (e.udata, e.udata)
  again evfilt_signal e = (0, e.udata)
  again _ e = (0, 0)

  abbrev Again : Filter → Kevent → Option (Reply × W) → Type 0
  Again f e none = Unit
  Again f e (some (r, w')) =
      (n : ℕ) → r ≡ Reply.done n → registered w' f e.kident ≡ some (again f e)

  reactivate_filter-Again :
      (f : Filter) (e : Kevent) (w : W) → e.filter ≡ f → Again f e (reactivate_filter kevent f e w)
  unfolding reactivate_filter add_fd set_event ident
  reactivate_filter-Again evfilt_read e w same = simp same λ n h. lawful.adds w _ n refl h
  reactivate_filter-Again evfilt_write e w same = simp same λ n h. lawful.adds w _ n refl h
  reactivate_filter-Again evfilt_timer e w same = simp same λ n h. lawful.adds w _ n refl h
  reactivate_filter-Again evfilt_signal e w same = λ n h. lawful.adds w _ n refl h
  reactivate_filter-Again (evfilt_other f) e w same = tt

  -- Where `reactivate` succeeds, the event is registered for the filter and the identifier that it was
  -- delivered for: a timer with its interval, a signal with its identifier.
  pub reactivate-registered :
      (e : Kevent) (w w' : W) (n : ℕ)
      → reactivate kevent e w ≡ some (Reply.done n, w')
      → registered w' e.filter e.kident ≡ some (again e.filter e)
  unfolding reactivate
  reactivate-registered e w w' n h =
      let a : Again e.filter e (reactivate_filter kevent e.filter e w) =
        reactivate_filter-Again e.filter e w refl in
      rw h at a n refl

module _ {W : Type 0} (os : Posix W) (is_open : W → ℕ → Bool)
    (lawful : mpio.Posix.IsLawful os is_open) where
  -- The constructor has one new descriptor, or it throws with the descriptors as before.
  abbrev pub Constructed : W → Option (ℕ × Kernel) × W → Type 0
  Constructed w (none, w') = SameOpen is_open w w'
  Constructed w (some (kq, k), w') = Opened is_open kq w w'

  limited-Constructed :
      (w w' : W) (kq : Reply) (r : Reply × W)
      → ((fd : ℕ) → kq ≡ Reply.done fd → Opened is_open fd w w')
      → ((e : Errno) → kq ≡ Reply.failed e → SameOpen is_open w w')
      → SameOpen is_open w' r.1
      → Constructed w (limited os kq r)
  unfolding limited
  limited-Constructed w w' (Reply.done kq) (Reply.failed e, w2) ok bad same =
      close-Opened os is_open lawful kq w w2
        (Opened-SameOpen os is_open lawful kq w w' w2 (ok kq refl) same)
  limited-Constructed w w' (Reply.failed e') (Reply.failed e, w2) ok bad same =
      λ d. same d ∙ bad e' refl d
  limited-Constructed w w' (Reply.failed e) (Reply.done n, w2) ok bad same =
      λ d. same d ∙ bad e refl d
  limited-Constructed w w' (Reply.done kq) (Reply.done n, w2) ok bad same =
      Opened-SameOpen os is_open lawful kq w w' w2 (ok kq refl) same

  -- The constructor opens the queue; where it throws, whichever call failed, it leaves open what was
  -- open before.
  pub new-Constructed : (w : W) → Constructed w (new os w)
  unfolding new
  new-Constructed w =
      limited-Constructed w (os.create w Create.kqueue).1 (os.create w Create.kqueue).0
        (os.getrlimit (os.create w Create.kqueue).1)
        (λ fd e. lawful.create_done w Create.kqueue fd e)
        (λ e h. lawful.create_failed w Create.kqueue e h)
        (lawful.getrlimit_keeps (os.create w Create.kqueue).1)
