-- ===== src/Loop/Interest.antt =====
-- What mpsrc/wavy_loop.cc asks of its kernel object (mpsrc/wavy_kernel_epoll.h) changes the interest list of
-- epoll as the model of the loop says: `registered` and `armed` of Loop stand for that list.
use mpio.Prelude.{
  ℕ, ◌/◌, ◌%◌, ◌^◌, ◌≤◌, ◌≡◌, List, Option, none, some, Bool, true, false, ltb, ◌==◌, if◌then◌else◌,
}
use mpio.Os.{Reply, Errno}
use mpio.Posix.{Posix, Request}
use mpio.Kernel
use mpio.Kernel.{epollin, backlog_size, add_fd, remove_fd, wait}
use mpio.Out.{Event, ident}
use mpio.Loop.{Loop, reactivate, remove, reset_handler, add_handler, remove_handler, occurs, disarm}

-- An entry of the interest list.
pub record Entry : Type 0 where
  pub mask : ℕ
  pub udata : ℕ
  pub enabled : Bool

abbrev pub is_some : Option Entry → Bool
is_some none = false
is_some (some x) = true

abbrev pub weight : Option Entry → ℕ
weight none = 0
weight (some x) = if x.enabled then 1 else 0

abbrev pub changed : (Entry → Entry) → Option Entry → Option Entry
changed f none = none
changed f (some x) = some (f x)

-- The mask has EPOLLONESHOT.
unfoldable pub is_one_shot : ℕ → Bool
is_one_shot mask = (mask / 2 ^ 30) % 2 == 1

-- An event of the entry is delivered: it is disabled where its mask has EPOLLONESHOT.
abbrev pub deliver : Entry → Entry
deliver x = if is_one_shot x.mask then record x { enabled = false } else x

-- The entry is one-shot, if there is one.
abbrev pub OneShot : Option Entry → Type 0
OneShot none = Unit
OneShot (some x) = is_one_shot x.mask ≡ true

module _ {W : Type 0} (os : Posix W) (ep : ℕ) where
  -- epoll_ctl(2) and epoll_wait(2). `interest w` is the list of the instance `ep`, and `delivered w t` the
  -- events that a wait puts into the backlog. To change or to delete an entry needs no memory.
  pub record IsEpoll (interest : W → ℕ → Option Entry) (delivered : W → Option ℕ → List Event)
      : Type 0 where
    pub adds_done :
        (w : W) (fd mask udata n : ℕ)
        → (os.request w ep (Request.epoll_add fd mask udata)).0 ≡ Reply.done n
        → (interest w fd ≡ none)
          × ((d : ℕ)
              → interest (os.request w ep (Request.epoll_add fd mask udata)).1 d ≡ (
                  if d == fd
                  then some (record { mask = mask; udata = udata; enabled = true })
                  else interest w d))
    pub adds_failed :
        (w : W) (fd mask udata : ℕ) (e : Errno)
        → (os.request w ep (Request.epoll_add fd mask udata)).0 ≡ Reply.failed e
        → (d : ℕ) → interest (os.request w ep (Request.epoll_add fd mask udata)).1 d ≡ interest w d
    pub mods :
        (w : W) (fd mask udata d : ℕ)
        → interest (os.request w ep (Request.epoll_mod fd mask udata)).1 d ≡ (
            if d == fd
            then changed
                (λ x. record { mask = mask; udata = udata; enabled = true })
                (interest w fd)
            else interest w d)
    pub dels :
        (w : W) (fd d : ℕ)
        → interest (os.request w ep (Request.epoll_del fd)).1 d
          ≡ (if d == fd then none else interest w d)
    pub waits :
        (w : W) (t : Option ℕ) (d : ℕ)
        → interest (os.request w ep (Request.epoll_wait backlog_size t)).1 d ≡ (
            if ltb 0 (occurs d (delivered w t))
            then changed deliver (interest w d)
            else interest w d)
    pub waits_le : (w : W) (t : Option ℕ) (d : ℕ) → occurs d (delivered w t) ≤ weight (interest w d)

-- What the loop asks of its kernel object.
pub data Ask : Type 0 where
  adds removes : (fd : ℕ) → Ask
  rearms drops : Event → Ask
  waits : (timeout_msec : Option ℕ) → Ask

-- The list is what the loop has of it.
pub record Matches {W : Type 0} (interest : W → ℕ → Option Entry) (w : W) (l : Loop) : Type 0 where
  pub known : (d : ℕ) → l.registered d ≡ is_some (interest w d)
  pub armed : (d : ℕ) → l.armed d ≡ weight (interest w d)
  pub one_shot : (d : ℕ) → OneShot (interest w d)

module _ {W : Type 0} (os : Posix W) (ep : ℕ) (interest : W → ℕ → Option Entry)
    (delivered : W → Option ℕ → List Event) (law : IsEpoll os ep interest delivered) where
  abbrev pub in_kernel : Ask → W → W
  in_kernel (adds fd) w = (add_fd os ep fd epollin w).1
  in_kernel (removes fd) w = (remove_fd os ep fd w).1
  in_kernel (rearms e) w = (Kernel.reactivate os ep (record { udata = e }) w).1
  in_kernel (drops e) w = (Kernel.remove os ep (record { udata = e }) w).1
  in_kernel (waits t) w = (wait os ep t w).1

  abbrev pub in_loop : Ask → W → Loop → Loop
  in_loop (adds fd) w l = add_handler fd l
  in_loop (removes fd) w l = remove_handler fd l
  in_loop (rearms e) w l = reactivate e l
  in_loop (drops e) w l = reset_handler (ident e) (remove e l)
  in_loop (waits t) w l = disarm (delivered w t) l

  -- There is memory for a new entry, and an event that is armed again has EPOLLONESHOT in its mask.
  abbrev pub IsFine : Ask → W → Type 0
  IsFine (adds fd) w =
      interest w fd ≡ none → (n : ℕ) × ((add_fd os ep fd epollin w).0 ≡ Reply.done n)
  IsFine (rearms e) w = is_one_shot (Kernel.events (record { udata = e })) ≡ true
  IsFine _ w = Unit
