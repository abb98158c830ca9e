-- ===== src/Xfer/Buffer.antt =====
-- The class xfer of mp/wavy.hmpl and mpsrc/wavy_out.cc: a growing buffer of commands.
-- `realloc n` says whether the allocator gives n bytes. An operation that throws std::bad_alloc
-- leaves its buffer as it was, so only the outcome is returned.
use mpio.Prelude.{
  is_empty, ℕ, zero, suc, ◌+◌, ◌/◌, List, [], ◌∷◌, ◌++◌, Option, none, some, Bool, true, false, not,
  ◌&&◌, length, drop, ltb, ◌==◌, if◌then◌else◌,
}
use mpio.Prelude.{◌>>=◌ as bind?}
use mpio.Memory.{Outcome, returned, bad_alloc, ◌>>=◌, add_size, sub_size, mul_size, grow, rounds}
use mpio.Os.{Iovec, Os}
use mpio.Xfer.Bytes.{get}
use mpio.Xfer.Command.{
  sizeof_mem, sizeof_iovec, sizeof_sendfile, sizeof_finalize, fill_mem, fill_iovec, fill_sendfile,
  fill_finalize, xf_sendfile, xf_finalize,
}
use mpio.Xfer.Items.{Item, call}
use mpio.Xfer.Execute.{execute}

-- `used` is the memory from `m_head` to `m_tail`; `allocated` is `m_head != NULL`.
pub record Xfer : Type 0 where
  pub allocated : Bool
  pub used : List ℕ
  pub free : ℕ

abbrev pub new : Xfer
new = record { allocated = false; used = []; free = 0 }

-- `m_head == m_tail`
abbrev pub empty : Xfer → Bool
empty x = is_empty x.used

module _ (realloc : ℕ → Bool) where
  unfoldable pub reserve : Xfer → ℕ → Outcome Xfer
  reserve x size =
      let reqsz = add_size size (length x.used) in
      grow rounds (add_size (mul_size (add_size (length x.used) x.free) 2) 72) reqsz >>= λ nsize.
      if realloc nsize
      then returned
          (record { allocated = true; used = x.used; free = sub_size nsize (length x.used) })
      else bad_alloc

  -- `if(m_free < size) { reserve(size); }`
  abbrev pub ensure : Xfer → ℕ → Outcome Xfer
  ensure x size = if ltb x.free size then reserve x size else returned x

  -- Bytes are written at `m_tail`, and `size` is taken off `m_free`.
  unfoldable pub append_bytes : Xfer → ℕ → List ℕ → Outcome Xfer
  append_bytes x size bytes = ensure x size >>= λ y.
      returned (record y { used = y.used ++ bytes; free = sub_size y.free size })

  unfoldable pub push_xfraw : Xfer → List ℕ → Outcome Xfer
  push_xfraw x buf = append_bytes x (length buf) buf

  unfoldable pub push_write : Xfer → ℕ → ℕ → Outcome Xfer
  push_write x buf size = append_bytes x sizeof_mem (fill_mem buf size)

  unfoldable pub push_writev : Xfer → List Iovec → Outcome Xfer
  push_writev x vec = append_bytes x (sizeof_iovec (length vec)) (fill_iovec vec)

  unfoldable pub push_sendfile : Xfer → ℕ → ℕ → ℕ → Outcome Xfer
  push_sendfile x infd off len = append_bytes x sizeof_sendfile (fill_sendfile infd off len)

  unfoldable pub push_finalize : Xfer → ℕ → ℕ → Outcome Xfer
  push_finalize x fin user = append_bytes x sizeof_finalize (fill_finalize fin user)

  -- The buffer and `*to`, after the call.
  unfoldable pub migrate : Xfer → Xfer → Outcome (Xfer × Xfer)
  migrate x to =
      if not to.allocated
      then returned (new, x)
      else (append_bytes to (length x.used) x.used >>= λ to'.
          returned (record x { used = []; free = add_size x.free (length x.used) }, to'))

-- The step of the loop in `clear`: how far `p` moves, and the finalizer that is called.
abbrev pub sizeof_tag : ℕ → ℕ
sizeof_tag tag =
    if tag == xf_sendfile
    then sizeof_sendfile
    else if tag == xf_finalize
    then sizeof_finalize
    else sizeof_iovec (tag / 2)

unfoldable pub called : ℕ → List ℕ → Option (List Item)
called tag r =
    if tag == xf_finalize
    then bind? (get 8 r) (λ (fin, r').
      bind? (get 8 r') (λ (user, rest). some (if fin == 0 then [] else call fin user ∷ [])))
    else some []

-- `for(char* p = m_head; p < m_tail; )`: the calls made; `none`: no fuel, or a read past `m_tail`.
unfoldable pub clear_loop : ℕ → List ℕ → Option (List Item)
clear_loop zero p = none
clear_loop (suc fuel) p = elim (is_empty p) [
  | true ↦ some []
  | false ↦ bind? (get 4 p) (λ (tag, r).
      bind? (called tag r)
        (λ done. bind? (clear_loop fuel (drop (sizeof_tag tag) p)) (λ more. some (done ++ more))))
]

unfoldable pub clear : Xfer → Option (List Item × Xfer)
clear x =
    bind? (clear_loop (suc (length x.used)) x.used)
      (λ calls. some (calls, record x { used = []; free = add_size x.free (length x.used) }))

-- What `try_write` leaves: the buffer, its result, what was done, and the world.
pub record Written (W : Type 0) : Type 0 where
  pub buffer : Xfer
  pub cont : Bool
  pub log : List Item
  pub world : W

module _ {W : Type 0} (os : Os W) where
  -- On an error the descriptor is shut down for reading, so that its handler sees the end.
  unfoldable pub try_write : Xfer → ℕ → W → Option (Written W)
  try_write x fd w = bind? (execute os fd x.used w) (λ r. some (record {
    buffer = record x { used = r.left; free = sub_size (length x.used + x.free) (length r.left) };
    cont = r.cont;
    log = r.log;
    world = if not r.cont && not (is_empty r.left) then os.shutdown r.world fd else r.world;
  }))
