-- ===== src/Lib.antt =====
-- mpio: an event loop for sockets (mpsrc/, interface mp/wavy.hmpl) and reference-counted buffers
-- (mp/stream_buffer.h, mp/shared_buffer.h).
--
-- A program hands bytes, files and finalizers for a descriptor to `loop::write` and its kin, which write
-- them as commands into memory and give that to `out::commit_raw`. What the kernel does not take at once
-- stays in the buffer of the descriptor (an `xfer`), which `out::write_event` goes on with when the
-- kernel object says that the descriptor can be written. Worker threads run `connect_task`; a listening
-- socket is a handler that accepts. Data that is read goes into a stream_buffer or a shared_buffer.
--
-- Modules and the code that they model:
--   Memory        size_t arithmetic, bad_alloc, and the doubling loop of all three buffers
--   Os            write, writev, sendfile and shutdown as a parameter
--   Posix         the calls that make, set up and close descriptors, as a parameter
--   Xfer          mpsrc/wavy_out.cc, class xfer_impl, and xfer of mp/wavy.hmpl: Bytes and Command are the
--                 memory of a command, Execute is `execute`, Buffer the methods
--   Out           mpsrc/wavy_out.cc and mpsrc/wavy_out.h, class out
--   Send          mpsrc/wavy_out.cc, the calls of loop that send
--   Block         the counts at the head of a block in mp/stream_buffer.h and mp/shared_buffer.h
--   StreamBuffer  mp/stream_buffer.h
--   SharedBuffer  mp/shared_buffer.h
--   SparseArray   mp/sparse_array.hmpl
--   Loop          mpsrc/wavy_loop.h and mpsrc/wavy_loop.cc, `thread_main`, `run_once` and what they call: a
--                 step relation of n threads, a step being a section under the mutex or a call outside it;
--                 Loop.Workers is the list of worker threads; Loop.Alone is the loop without workers, with
--                 the whole of `run_once`, `run_nonblock` and `flush`
--   Pthread       mp/pthread.h, the methods of threads, mutexes, read-write locks and conditions; Pthread.Run
--                 is the function object that a thread is given
--   Lock          mp/pthread.h, the scoped locks
--   Signal        mp/signal.h
--   Sync          mp/sync.hmpl: an object with a mutex, and refs that lock it
--   Handlers      mpsrc/wavy_timer.h, mpsrc/wavy_timer.cc, mpsrc/wavy_signal.h and mpsrc/wavy_signal.cc
--   Kernel        mpsrc/wavy_kernel_epoll.h, with timerfd and signalfd; Kernel.Pipe is the timers of the
--                 build without timerfd
--   Kqueue        mpsrc/wavy_kernel_kqueue.h
--   Connect       mpsrc/wavy_connect.cc: class connect_task; Connect.Pack is its pack and `loop::connect`
--   Listen        mpsrc/wavy_listen.cc, and `add_handler_impl` of mpsrc/wavy_loop.cc
--   Prelude, Family  shared helpers; Tests  the theorems at concrete data
--
-- State and steps: a method is a function from the state, and a world that the calls of the system
-- transform, to the new state, the new world, its result and, where it sends, a log of what was sent and
-- which finalizers were called. A read outside a buffer, a touch of a freed block and a failed
-- allocation are results. Each method of out runs under the mutex of the descriptor's buffer, so it is
-- one step. size_t has 64 bits, an int 32, and the machine is little-endian.
--
-- A run of Loop (`Reach`) has any number of steps of `Step`, but adds no handler for a descriptor that is
-- registered anew while an event of it is left from before. The code does not look whether there is one.
--
-- Bounds and fuel: `execute` and `clear` have one round for each byte and one more, and a command takes
-- four bytes at least. The doubling loop has 65 rounds, and 64 doublings take any size that is not 0
-- past every request up to 2 ^ 63. The poll loop of `connect_task` and the accept loop take their
-- rounds as an argument, with the hypothesis that the system ends them.
--
-- The loop of reports in Out.Drain has a round for each item of the buffer and one more, since each report
-- does one item at least. `flush` of Loop.Alone has a round for each task and two for each item and each
-- watched descriptor: each poll is followed by a report. `handler_loop` writes eight bytes, one at least
-- in each round. The search for an identifier has 512 rounds, as in the code, and the loops of threads are
-- as long as their list.
--
-- Not modelled: a write, a `run_once` or a `flush` that a handler or a task calls in Loop.Alone; a
-- `run_nonblock` beside worker threads, which goes on without the mutex; the constructors
-- of the wrappers in mp/pthread.h; mp/tls_set.h, an experiment that no build compiles; the small wrappers
-- of the C library in mp/; std::vector running out of memory; the effect of a finalizer on the world.
pub mod Prelude
pub mod Memory
pub mod Os
pub mod Xfer
pub mod Family
pub mod Out
pub mod Send
pub mod Block
pub mod StreamBuffer
pub mod SharedBuffer
pub mod SparseArray
pub mod Posix
pub mod Kernel
pub mod Kqueue
pub mod Connect
pub mod Listen
pub mod Tests
pub mod Loop
pub mod Pthread
pub mod Signal
pub mod Lock
pub mod Handlers
pub mod Sync
