-- ===== src/Tests/Queue.antt =====
-- The theorems on mpsrc/wavy_kernel_kqueue.h at a queue that accepts every change.
use mpio.Prelude.{ℕ, ◌≡◌, refl, Option, none, some, true, false, ◌==◌, ◌&&◌, if◌then◌else◌, arith}
use mpio.Os.{Reply}
use mpio.Family.{update}
use mpio.Kqueue.{
  Filter, evfilt_read, evfilt_write, evfilt_timer, evfilt_signal, evfilt_other, same_filter, Flags,
  add_oneshot, delete, Kevent, Kernel, fresh, alloc_xident, alloc_loop, add_signal, set_event,
}
use mpio.Kqueue.Slots.{Allocated, alloc_xident-Allocated}
use mpio.Kqueue.Registered.{IsLawful}

-- What is registered.
abbrev Queue : Type 0
Queue = Filter → ℕ → Option (ℕ × ℕ)

abbrev entry : Flags → ℕ × ℕ → Option (ℕ × ℕ)
entry add_oneshot d = some d
entry delete d = none

abbrev kevent : Queue → Kevent → Reply × Queue
kevent q e = (
  Reply.done 0,
  λ f i.
      if same_filter e.filter f && (e.kident == i) then entry e.flags (e.kdata, e.udata) else q f i,
)

abbrev registered : Queue → Filter → ℕ → Option (ℕ × ℕ)
registered q = q

same_filter_refl : (f : Filter) → same_filter f f ≡ true
same_filter_refl evfilt_read = refl
same_filter_refl evfilt_write = refl
same_filter_refl evfilt_timer = refl
same_filter_refl evfilt_signal = refl
same_filter_refl (evfilt_other f) = ground arith

kevent-IsLawful : IsLawful kevent registered
kevent-IsLawful = record {
  adds = λ w e n flags d. rw (same_filter_refl e.filter, flags) (ground arith);
  deletes = λ w e n flags d. rw (same_filter_refl e.filter, flags) (ground arith);
  keeps = λ w e f i ne. rw ne refl;
}

abbrev empty_queue : Queue
empty_queue f i = none

abbrev thousand : Kernel
thousand = fresh 1000

-- The first identifier is given out.
abbrev thousand_one : Kernel
thousand_one = record { fdmax = 1000; xident = update (λ x. false) 0 true; index = 1 }

alloc_xident-Allocated_example : Allocated thousand (alloc_xident thousand)
alloc_xident-Allocated_example = alloc_xident-Allocated thousand

thousand-alloc : alloc_xident thousand ≡ (some 1000, thousand_one)
unfolding alloc_xident alloc_loop
thousand-alloc = refl

abbrev signalled : Queue
signalled =
    (kevent empty_queue (record {
      kident = 15;
      filter = evfilt_signal;
      flags = add_oneshot;
      kdata = 0;
      udata = 1000;
    })).1

fifteen-add :
    add_signal kevent 15 thousand empty_queue ≡ (Reply.done 1000, (thousand_one, signalled))
unfolding add_signal set_event
fifteen-add = rw thousand-alloc refl
