-- ===== src/Xfer/Push.antt =====
-- The operations of the class xfer (mpsrc/wavy_out.cc) that add commands: what a buffer holds after
-- them, and the space that it keeps account of.
use mathlib.Core.Path.{ap₂}
use mpio.Prelude.{
  ℕ, ◌+◌, ◌-◌, ◌^◌, ◌≤◌, ◌<◌, ◌≡◌, refl, sym, ap, ◌∙◌, List, [], ◌∷◌, ◌++◌, append_assoc,
  append-nil, Bool, true, false, Bool-cases, inl, inr, length, length-append, ltb, ltb→le, arith,
}
use mpio.Memory.{Outcome, returned, add_size, sub_size, mul_size, grow, rounds}
use mpio.Memory.Growth.{Grown, grow_total}
use mpio.Xfer.Command.{
  Command, iovec, sendfile, finalize, sizeof_iovec, fill, fill_all, fill_iovec, Fits, AllFit,
}
use mpio.Xfer.Codec.{
  length-le-fill_all, length-fill_iovec, length-fill_sendfile, length-fill_finalize, fill_mem_lem,
}
use mpio.Xfer.Buffer.{
  Xfer, reserve, ensure, append_bytes, push_xfraw, push_write, push_writev, push_sendfile,
  push_finalize,
}

-- The buffer holds the commands `cs`, and nothing else; its size is a size_t.
pub record Holds (cs : List Command) (x : Xfer) : Type 0 where
  pub bytes : x.used ≡ fill_all cs
  pub fit : AllFit cs
  pub capacity : length x.used + x.free < 2 ^ 64
  pub unallocated : x.allocated ≡ false → (cs ≡ []) × (x.free ≡ 0)

-- Below these sizes no arithmetic of `reserve` wraps.
abbrev pub IsSmall : Xfer → Type 0
IsSmall x = length x.used + x.free < 2 ^ 62

-- The operation returns a buffer that holds `cs`.
pub record Returns (cs : List Command) (o : Outcome Xfer) : Type 0 where
  pub buffer : Xfer
  pub returns : o ≡ returned buffer
  pub holds : Holds cs buffer

fill_all-append : (cs ds : List Command) → fill_all (cs ++ ds) ≡ fill_all cs ++ fill_all ds
fill_all-append [] ds = refl
fill_all-append (c ∷ cs) ds =
    ap (◌++◌ (fill c)) (fill_all-append cs ds) ∙ sym (append_assoc (fill c) (fill_all cs) _)

AllFit-append : (cs ds : List Command) → AllFit cs → AllFit ds → AllFit (cs ++ ds)
AllFit-append [] ds f g = g
AllFit-append (c ∷ cs) ds f g = (f.0, AllFit-append cs ds f.1 g)

pub eq_nil : {A : Type 0} (xs : List A) → length xs ≤ 0 → xs ≡ []
eq_nil [] h = refl
eq_nil (x ∷ xs) h = absurd (omega arith)

module _ (realloc : ℕ → Bool) where
  -- One operation for each command.
  abbrev pub push : Xfer → Command → Outcome Xfer
  push x (iovec vec) = push_writev realloc x vec
  push x (sendfile infd off len) = push_sendfile realloc x infd off len
  push x (finalize fin user) = push_finalize realloc x fin user

module _ (realloc : ℕ → Bool) (ample : (n : ℕ) → realloc n ≡ true) where
  reserve-room :
      (x : Xfer) (size : ℕ)
      → IsSmall x
      → size ≤ 2 ^ 62
      → (n : ℕ) × (reserve realloc x size
          ≡ returned (record { allocated = true; used = x.used; free = n }))
        × (length x.used + n < 2 ^ 64)
        × (size ≤ n)
  unfolding reserve
  reserve-room x size small le = (
    sub_size g.size (length x.used),
    rw (g.returns, ample g.size),
    ground (arith, g.enough, g.in_range),
    ground (arith, g.enough, g.in_range),
  )
    where
      g :
          Grown
            (add_size (mul_size (add_size (length x.used) x.free) 2) 72)
            (add_size size (length x.used))
            (grow rounds
              (add_size (mul_size (add_size (length x.used) x.free) 2) 72)
              (add_size size (length x.used)))
      g = grow_total _ _ (omega arith) (omega arith) (omega arith)

  -- Room for `size` more bytes, taken from a buffer that is otherwise as it was.
  ensure-room :
      (x : Xfer) (size : ℕ)
      → IsSmall x
      → size ≤ 2 ^ 62
      → (y : Xfer) × (ensure realloc x size ≡ returned y)
        × (y.used ≡ x.used)
        × (length x.used + y.free < 2 ^ 64)
        × (size ≤ y.free)
        × (y.allocated ≡ false → (x.allocated ≡ false) × (y.free ≡ x.free))
  ensure-room x size small le = elim (Bool-cases (ltb x.free size)) [
    | inl less ↦
        let (n, e, cap, room) = reserve-room x size small le in
        (
          record { allocated = true; used = x.used; free = n },
          rw (less, e),
          refl,
          cap,
          room,
          λ h. cc,
        )
    | inr fits ↦ (x, rw fits, refl, omega arith, ltb→le x.free size fits, λ h. (h, refl))
  ]

  -- Bytes that hold the commands `ds` are added behind those of `cs`.
  pub append_bytes-Returns :
      (cs ds : List Command) (x : Xfer) (size : ℕ) (bytes : List ℕ)
      → Holds cs x
      → IsSmall x
      → AllFit ds
      → bytes ≡ fill_all ds
      → length bytes ≡ size
      → size ≤ 2 ^ 62
      → Returns (cs ++ ds) (append_bytes realloc x size bytes)
  unfolding append_bytes
  append_bytes-Returns cs ds x size bytes h small f eb es le =
      let (y, e, used, cap, room, fresh) = ensure-room x size small le in
      let free_lem : sub_size y.free size ≡ y.free - size = omega arith in
      let len : length (y.used ++ bytes) ≡ length x.used + size =
        length-append y.used bytes ∙ ap₂ ◌+◌ (ap length used) es in
      record {
        buffer = record y { used = y.used ++ bytes; free = sub_size y.free size };
        returns = rw e;
        holds = record {
          bytes = ap₂ ◌++◌ (used ∙ h.bytes) eb ∙ sym (fill_all-append cs ds);
          fit = AllFit-append cs ds h.fit f;
          capacity = omega (arith, len, free_lem);
          unallocated = λ a.
              let (none_x, same) = fresh a in
              let (none_cs, zero_x) = h.unallocated none_x in
              let none_ds : ds ≡ [] =
                eq_nil ds (omega (arith, length-le-fill_all ds, ap length eb)) in
              (ap₂ ◌++◌ none_cs none_ds, omega (arith, free_lem));
        };
      }

  -- A push on a buffer that holds `cs`, and whose size is below 2 ^ 62, returns a buffer that
  -- holds `cs` and behind them the new command, where the command fits its fields and memory is
  -- ample.
  pub push-Returns :
      (cs : List Command) (x : Xfer) (c : Command)
      → Holds cs x
      → IsSmall x
      → Fits c
      → Returns (cs ++ (c ∷ [])) (push realloc x c)
  unfolding push_writev push_sendfile push_finalize
  push-Returns cs x (iovec vec) h small f =
      append_bytes-Returns cs (iovec vec ∷ []) x (sizeof_iovec (length vec)) (fill_iovec vec) h
        small (f, tt) (sym (append-nil (fill_iovec vec))) (length-fill_iovec vec) (omega arith)
  push-Returns cs x (sendfile infd off len) h small f =
      append_bytes-Returns cs (sendfile infd off len ∷ []) x _ _ h small (f, tt)
        (sym (append-nil _)) (length-fill_sendfile infd off len) (omega arith)
  push-Returns cs x (finalize fin user) h small f =
      append_bytes-Returns cs (finalize fin user ∷ []) x _ _ h small (f, tt) (sym (append-nil _))
        (length-fill_finalize fin user) (omega arith)

  -- `push_write` does what `push_writev` does with the one piece of memory.
  pub push_write-eq-push_writev :
      (x : Xfer) (buf size : ℕ)
      → push_write realloc x buf size
        ≡ push_writev realloc x (record { iov_base = buf; iov_len = size } ∷ [])
  unfolding push_write push_writev
  push_write-eq-push_writev x buf size = rw (fill_mem_lem buf size)

  -- Commands that stand in a buffer elsewhere are added behind those of `cs`.
  pub push_xfraw-Returns :
      (cs ds : List Command) (x : Xfer)
      → Holds cs x
      → IsSmall x
      → AllFit ds
      → length (fill_all ds) ≤ 2 ^ 62
      → Returns (cs ++ ds) (push_xfraw realloc x (fill_all ds))
  unfolding push_xfraw
  push_xfraw-Returns cs ds x h small f le =
      append_bytes-Returns cs ds x (length (fill_all ds)) (fill_all ds) h small f refl refl le
