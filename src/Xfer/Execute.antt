-- ===== src/Xfer/Execute.antt =====
-- `xfer_impl::execute` of mpsrc/wavy_out.cc: write the commands of a buffer to a descriptor.
-- The buffer is its bytes from `p` to `endp`: those before `p` are never read again, and
-- MP_WAVY_XFER_CONSUMED moves the rest to the head.
-- Each command's effect is in `log`. A finalizer's exception is swallowed by the code, so only its
-- call shows. sendfile(2) is called as on Linux.
use mpio.Prelude.{
  is_empty, ℕ, zero, suc, ◌+◌, ◌-◌, ◌*◌, ◌%◌, ◌^◌, List, [], ◌∷◌, ◌++◌, Option, none, some, Bool,
  true, false, length, take, ltb, leb, ◌==◌, if◌then◌else◌, ◌>>=◌,
}
use mpio.Os.{Reply, is_transient, Iovec, Os}
use mpio.Xfer.Bytes.{put}
use mpio.Xfer.Command.{
  Command, iovec, sendfile, finalize, put_iovecs, fill_iovec, fill_sendfile, read_command,
}
use mpio.Xfer.Items.{Item, file, call, range, items_vec}

-- `execute` returned: the bytes from `head` to `*tail`, the return value, what was done.
pub record Run (W : Type 0) : Type 0 where
  pub left : List ℕ
  pub cont : Bool
  pub log : List Item
  pub world : W

abbrev pub log_first : {W : Type 0} → List Item → Option (Run W) → Option (Run W)
log_first done none = none
log_first done (some r) = some (record r { log = done ++ r.log })

-- The `for` loop over `vec`: everything was written, or piece `i` was written in part, and
-- `vec + i` is what remains.
pub data Progress : Type 0 where
  finished : Progress
  stopped : (i : ℕ) → List Iovec → Progress

unfoldable pub skip_written : ℕ → List Iovec → ℕ → Progress
skip_written i [] wl = finished
skip_written i (v ∷ vs) wl =
    let rest = skip_written (i + 1) vs (wl - v.iov_len) in
    if leb v.iov_len wl
    then rest
    else stopped i (record { iov_base = v.iov_base + wl; iov_len = v.iov_len - wl } ∷ vs)

-- The buffer after a partial writev: at `i == 0` the command stays where it is, and else a shorter
-- one is filled in at the head.
unfoldable pub unwritten : ℕ → ℕ → List Iovec → List ℕ → List ℕ
unwritten veclen i vec rest =
    if i == 0
    then (put 4 (veclen * 2 % 2 ^ 32) ++ put_iovecs vec) ++ rest
    else fill_iovec vec ++ rest

module _ {W : Type 0} (os : Os W) (fd : ℕ) where
  -- `next` goes on behind the command, `p` is the buffer that begins with it.
  module _ (next : List ℕ → W → Option (Run W)) (p rest : List ℕ) where
    unfoldable pub exec_sendfile : ℕ → ℕ → ℕ → Reply × W → Option (Run W)
    exec_sendfile infd off len (Reply.failed e, w) =
        some (record { left = p; cont = is_transient e; log = []; world = w })
    exec_sendfile infd off len (Reply.done wl, w) =
        if wl == 0
        then some (record { left = p; cont = false; log = []; world = w })
        else if ltb wl len
        then some (record {
          left = fill_sendfile infd ((off + wl) % 2 ^ 64) (len - wl) ++ rest;
          cont = true;
          log = range (file infd) off wl;
          world = w;
        })
        else log_first (range (file infd) off wl) (next rest w)

    unfoldable pub exec_finalize : ℕ → ℕ → W → Option (Run W)
    exec_finalize fin user w =
        if fin == 0 then next rest w else log_first (call fin user ∷ []) (next rest w)

    unfoldable pub exec_progress : List Iovec → ℕ → W → Progress → Option (Run W)
    exec_progress vec wl w finished = log_first (take wl (items_vec vec)) (next rest w)
    exec_progress vec wl w (stopped i vec') = some (record {
      left = unwritten (length vec) i vec' rest;
      cont = true;
      log = take wl (items_vec vec);
      world = w;
    })

    unfoldable pub exec_iovec : List Iovec → Reply × W → Option (Run W)
    exec_iovec vec (Reply.failed e, w) =
        some (record { left = p; cont = is_transient e; log = []; world = w })
    exec_iovec vec (Reply.done wl, w) =
        if wl == 0
        then some (record { left = p; cont = false; log = []; world = w })
        else exec_progress vec wl w (skip_written 0 vec wl)

    unfoldable pub exec_command : Command → W → Option (Run W)
    exec_command (sendfile infd off len) w =
        exec_sendfile infd off len (os.sendfile w fd infd off len)
    exec_command (finalize fin user) w = exec_finalize fin user w
    exec_command (iovec vec) w = exec_iovec vec (os.writev w fd vec)

  -- `while(p < endp)`; `none`: no fuel left, or a read past `endp`.
  unfoldable pub execute_loop : ℕ → List ℕ → W → Option (Run W)
  execute_loop zero p w = none
  execute_loop (suc fuel) p w = elim (is_empty p) [
    | true ↦ some (record { left = []; cont = false; log = []; world = w })
    | false ↦ read_command p >>= λ (c, rest). exec_command (execute_loop fuel) p rest c w
  ]

  -- Every command takes bytes, so there are no more rounds than bytes.
  unfoldable pub execute : List ℕ → W → Option (Run W)
  execute p w = execute_loop (suc (length p)) p w
