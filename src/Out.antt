-- ===== src/Out.antt =====
-- The class out of mpsrc/wavy_out.h and mpsrc/wavy_out.cc: a buffer for each descriptor, the kernel
-- object that tells when a descriptor can be written, and the count of watched descriptors.
-- Each method runs under the mutex of its descriptor's buffer, so it is one step here.
-- `realloc n` says whether the allocator gives n bytes.
pub mod Valid
pub mod Accept
pub mod Commit
pub mod Write
pub mod Flush
pub mod Drain
pub mod History
use mpio.Prelude.{
  ℕ, zero, suc, ◌+◌, ◌-◌, ◌%◌, ◌^◌, List, [], ◌∷◌, ◌++◌, Option, none, some, Bool, true, false, not,
  ◌&&◌, is_empty, length, take, leb, ltb, ◌==◌, if◌then◌else◌,
}
use mpio.Memory.{Outcome, returned, fault, ◌>>=◌}
use mpio.Os.{Errno, Reply, is_transient, Iovec, Os}
use mpio.Family.{update}
use mpio.Xfer.Items.{Item, mem, range}
use mpio.Xfer.Execute.{Run, execute}
use mpio.Xfer.Buffer.{new, Xfer, empty, push_xfraw, push_write, migrate, clear, Written, try_write}

-- `kernel::event` is its 64 bits of data; `ident` is their lower half.
abbrev pub Event : Type 0
Event = ℕ

abbrev pub ident : Event → ℕ
ident e = e % 2 ^ 32

-- The calls of `m_kernel`. Their results are ignored by the code.
pub data KernelCall : Type 0 where
  add_fd : (fd : ℕ) → KernelCall
  remove : (e : Event) → KernelCall
  reactivate : (e : Event) → KernelCall

-- `calls` has the last call of `m_kernel` first. `m_fdctx` has as many buffers as getrlimit said; the code
-- does not look whether a descriptor is below that, and the theorems take it as `fd < n`.
pub record Out : Type 0 where
  pub fdctx : ℕ → Xfer
  pub watching : ℕ
  pub queue : List Event
  pub calls : List KernelCall

-- `out::out`: no buffer has memory, and nothing is watched.
abbrev pub init : Out
init = record { fdctx = λ _. new; watching = 0; queue = []; calls = [] }

-- What `out::out` leaves: the state and the number of its buffers, or the exception.
pub data Constructed : Type 0 where
  constructed : (rlim_cur : ℕ) → Out → Constructed
  fails : Errno → Constructed

-- `out::out`, with what getrlimit replies.
unfoldable pub construct : Reply → Constructed
construct (Reply.done rlim_cur) = Constructed.constructed rlim_cur init
construct (Reply.failed e) = Constructed.fails e

-- What a method leaves: the state, the world, what was sent and called, and its result.
pub record Step (W : Type 0) : Type 0 where
  pub out : Out
  pub world : W
  pub log : List Item
  pub result : Bool

-- `none` is a read outside a buffer.
abbrev pub from_option {ℓ} : {A : Type ℓ} → Option A → Outcome A
from_option none = fault
from_option (some a) = returned a

abbrev pub store : Out → ℕ → Xfer → Out
store o fd x = record o { fdctx = update o.fdctx fd x }

-- `out::empty`, `out::has_queue` and `out::next`
abbrev pub is_idle : Out → Bool
is_idle o = o.watching == 0

abbrev pub has_queue : Out → Bool
has_queue o = not (is_empty o.queue)

abbrev next_of : List Event → Out → Option (Event × Out)
next_of [] o = none
next_of (e ∷ es) o = some (e, record o { queue = es })

unfoldable pub next : Out → Option (Event × Out)
next o = next_of o.queue o

-- `out::poll_event`: what `m_kernel.wait` returned, and the backlog that it filled.
pub data Polled : Type 0 where
  polled : Out → Polled
  throws : Errno → Polled

unfoldable pub poll_event : Out → Reply → List Event → Polled
poll_event o (Reply.failed e) backlog = if is_transient e then polled o else throws e
poll_event o (Reply.done num) backlog = polled (record o { queue = o.queue ++ take num backlog })

-- `out::watch`
unfoldable pub watch : Out → ℕ → Out
watch o fd = record o { watching = o.watching + 1; calls = add_fd fd ∷ o.calls }

module _ {W : Type 0} (os : Os W) where
  unfoldable pub write_event : Out → Event → W → Outcome (Step W)
  write_event o e w = from_option (try_write os (o.fdctx (ident e)) (ident e) w) >>= λ t.
      if not t.cont
      then (from_option (clear t.buffer) >>= λ (calls, x). returned (record {
        out = record o {
          fdctx = update o.fdctx (ident e) x;
          watching = o.watching - 1;
          calls = remove e ∷ o.calls;
        };
        world = t.world;
        log = t.log ++ calls;
        result = o.watching - 1 == 0;
      }))
      else returned (record {
        out = record o {
          fdctx = update o.fdctx (ident e) t.buffer;
          calls = reactivate e ∷ o.calls;
        };
        world = t.world;
        log = t.log;
        result = false;
      })

module _ (realloc : ℕ → Bool) {W : Type 0} (os : Os W) where
  -- What is left of `xfbuf` when `execute` returns false is dropped.
  unfoldable pub commit_raw : Out → ℕ → List ℕ → W → Outcome (Step W)
  commit_raw o fd xfbuf w =
      if not (empty (o.fdctx fd))
      then (push_xfraw realloc (o.fdctx fd) xfbuf >>= λ x.
          returned (record { out = store o fd x; world = w; log = []; result = false }))
      else (from_option (execute os fd xfbuf w) >>= λ r.
          if r.cont
          then (push_xfraw realloc (o.fdctx fd) r.left >>= λ x. returned (record {
            out = watch (store o fd x) fd;
            world = r.world;
            log = r.log;
            result = false;
          }))
          else returned (record { out = o; world = r.world; log = r.log; result = false }))

  -- The caller's buffer is the second part of the result.
  unfoldable pub commit : Out → ℕ → Xfer → W → Outcome (Step W × Xfer)
  commit o fd xf w =
      if not (empty (o.fdctx fd))
      then (migrate realloc xf (o.fdctx fd) >>= λ (xf', x).
          returned (record { out = store o fd x; world = w; log = []; result = false }, xf'))
      else (from_option (try_write os xf fd w) >>= λ t.
          if t.cont
          then (migrate realloc t.buffer (o.fdctx fd) >>= λ (xf', x). returned (
            record { out = watch (store o fd x) fd; world = t.world; log = t.log; result = false },
            xf',
          ))
          else returned
              (record { out = o; world = t.world; log = t.log; result = false }, t.buffer))

  -- `ctx.push_write(buf, size); watch(fd);` after `log` was sent
  abbrev pub queue_write : Out → ℕ → ℕ → ℕ → List Item → W → Outcome (Step W)
  queue_write o fd buf size log w = push_write realloc (o.fdctx fd) buf size >>= λ x.
      returned (record { out = watch (store o fd x) fd; world = w; log = log; result = false })

  unfoldable pub after_write : Out → ℕ → ℕ → ℕ → Reply × W → Outcome (Step W)
  after_write o fd buf size (Reply.failed e, w) =
      if is_transient e
      then queue_write o fd buf size [] w
      else returned (record { out = o; world = os.shutdown w fd; log = []; result = false })
  after_write o fd buf size (Reply.done wl, w) =
      if wl == 0
      then returned (record { out = o; world = os.shutdown w fd; log = []; result = false })
      else if leb size wl
      then returned (record { out = o; world = w; log = range mem buf wl; result = false })
      else queue_write o fd (buf + wl) (size - wl) (range mem buf wl) w

  unfoldable pub write : Out → ℕ → ℕ → ℕ → W → Outcome (Step W)
  write o fd buf size w =
      if empty (o.fdctx fd)
      then after_write o fd buf size (os.write w fd buf size)
      else (push_write realloc (o.fdctx fd) buf size >>= λ x.
          returned (record { out = store o fd x; world = w; log = []; result = false }))
