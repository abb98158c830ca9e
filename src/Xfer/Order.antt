-- ===== src/Xfer/Order.antt =====
-- `xfer_impl::execute` (mpsrc/wavy_out.cc) sends the bytes of a buffer and calls its finalizers in
-- order, and leaves the commands for what follows.
use mpio.Prelude.{
  ℕ, zero, suc, ◌+◌, ◌-◌, ◌^◌, ◌<◌, ◌≤◌, ◌≡◌, refl, sym, ap, List, [], ◌∷◌, ◌++◌, length, ltb, ◌==◌,
  Bool-cases, inl, inr, Bool, true, false, arith, Option,
}
use mpio.Os.{Iovec, total, Reply, is_transient, Os, IsLawful, Fine, Answers}
use mpio.Xfer.Command.{
  Command, iovec, sendfile, finalize, fill_all, fill_sendfile, Fits, AllFit, AllSome,
}
use mpio.Xfer.Codec.{
  length-fill_iovec, length-fill_sendfile, is_empty-fill, read_command-fill, length-le-fill_all,
}
use mpio.Xfer.Items.{
  Item, file, items, items_vec, length-range, length-items_vec, length-take, range-split,
}
use mpio.Xfer.Execute.{
  Run, Progress, finished, stopped, skip_written, exec_sendfile, exec_finalize, exec_progress,
  exec_iovec, exec_command, execute_loop, execute,
}
use mpio.Xfer.Progress.{Skipped, skip_written-Skipped, unwritten-eq}
use mpio.Xfer.Ran.{
  Executed, Advanced, When, When-map, When-both, Ran, Ran-stop, Ran-next, Ran-skip, Ran-part,
}

-- The pieces of a command, if the kernel answers: the request is not empty.
abbrev SomeOf : Command → Type 0
SomeOf (iovec vec) = 0 < total vec
SomeOf (sendfile infd off len) = 0 < len
SomeOf (finalize fin user) = Unit

module _ (live : Bool) where
  SomeOf-head :
      (c : Command) (cs : List Command) → When live (AllSome (c ∷ cs)) → When live (SomeOf c)
  SomeOf-head (iovec vec) cs a = When-map live (λ p. p.0) a
  SomeOf-head (sendfile infd off len) cs a = When-map live (λ p. p.0) a
  SomeOf-head (finalize fin user) cs a = When-map live (λ p. tt) a

  AllSome-tail :
      (c : Command) (cs : List Command) → When live (AllSome (c ∷ cs)) → When live (AllSome cs)
  AllSome-tail (iovec vec) cs a = When-map live (λ p. p.1) a
  AllSome-tail (sendfile infd off len) cs a = When-map live (λ p. p.1) a
  AllSome-tail (finalize fin user) cs a = a

module _ {W : Type 0} (live : Bool) (blocked : Type 0) (os : Os W) (fd : ℕ)
    (next : List ℕ → W → Option (Run W)) where
  module _ (cs : List Command) (f : AllFit cs) (some_cs : When live (AllSome cs))
      (ih : (w : W) → Ran live blocked cs (next (fill_all cs) w)) where
    exec_sendfile-Ran :
        (infd off len : ℕ) (r : Reply × W)
        → Fits (sendfile infd off len)
        → ((n : ℕ) → r.0 ≡ Reply.done n → n ≤ len)
        → When live (0 < len)
        → When live (Fine blocked r.0)
        → Ran live blocked (sendfile infd off len ∷ cs) (
            exec_sendfile os fd next
              (fill_all (sendfile infd off len ∷ cs))
              (fill_all cs)
              infd
              off
              len
              r)
    unfolding exec_sendfile items
    exec_sendfile-Ran infd off len (Reply.failed e, w) fc le full fine =
        Ran-stop live blocked (sendfile infd off len) cs (is_transient e) w (fc, f)
          (When-both live (λ a b. (a, b)) full some_cs) fine
    exec_sendfile-Ran infd off len (Reply.done wl, w) fc le full fine =
        elim (Bool-cases (wl == 0)) [
          | inl nothing ↦ rw nothing (
              Ran-stop live blocked (sendfile infd off len) cs false w (fc, f)
                (When-both live (λ a b. (a, b)) full some_cs)
                (When-map live (λ p. absurd (ground (arith, p))) fine))
          | inr some_of ↦ elim (Bool-cases (ltb wl len)) [
            | inl part ↦
                rw (some_of, part)
                  (Ran-part live blocked (sendfile infd off len)
                    (sendfile infd (off + wl) (len - wl)) cs _
                    (ap (λ o. fill_sendfile infd o (len - wl) ++ fill_all cs) (ground arith))
                    (ground arith, f) (range-split (file infd) off wl (len - wl) len (ground arith))
                    (omega (
                      arith,
                      length-fill_sendfile infd off len,
                      length-fill_sendfile infd (off + wl) (len - wl),
                    ))
                    refl (When-map live (λ s. (ground arith, s)) some_cs)
                    (When-map live (λ p. omega (arith, length-range (file infd) off wl, p)) fine))
            | inr whole ↦
                let all_of : wl ≡ len = ground (arith, le wl refl) in
                rw (some_of, whole, all_of)
                  (Ran-next live blocked (sendfile infd off len) cs _ _ refl (ih w))
          ]
        ]

    exec_progress-Ran :
        (vec : List Iovec) (wl : ℕ) (w : W) (pr : Progress)
        → Skipped vec wl 0 pr
        → length vec < 2 ^ 31
        → wl ≤ total vec
        → When live (0 < wl)
        → Ran live blocked
            (iovec vec ∷ cs)
            (exec_progress os fd next (fill_all (iovec vec ∷ cs)) (fill_all cs) vec wl w pr)
    unfolding exec_progress items
    exec_progress-Ran vec wl w finished s short le fine =
        Ran-next live blocked (iovec vec) cs _ _ (sym s) (ih w)
    exec_progress-Ran vec wl w (stopped i vec') s short le fine =
        Ran-part live blocked (iovec vec) (iovec vec') cs _
          (unwritten-eq (length vec) i vec' (fill_all cs) (omega arith)) ((omega arith, s.1), f) s.0
          (omega (arith, length-fill_iovec vec, length-fill_iovec vec')) refl
          (When-map live (λ a. (s.4, a)) some_cs)
          (When-map live
            (λ p. omega (
              arith,
              p,
              le,
              length-items_vec vec,
              length-take wl (items_vec vec) (omega (arith, le, length-items_vec vec)),
            ))
            fine)

    exec_iovec-Ran :
        (vec : List Iovec) (r : Reply × W)
        → Fits (iovec vec)
        → ((n : ℕ) → r.0 ≡ Reply.done n → n ≤ total vec)
        → When live (0 < total vec)
        → When live (Fine blocked r.0)
        → Ran live blocked
            (iovec vec ∷ cs)
            (exec_iovec os fd next (fill_all (iovec vec ∷ cs)) (fill_all cs) vec r)
    unfolding exec_iovec
    exec_iovec-Ran vec (Reply.failed e, w) fc le full fine =
        Ran-stop live blocked (iovec vec) cs (is_transient e) w (fc, f)
          (When-both live (λ a b. (a, b)) full some_cs) fine
    exec_iovec-Ran vec (Reply.done wl, w) fc le full fine = elim (Bool-cases (wl == 0)) [
      | inl nothing ↦ rw nothing (
          Ran-stop live blocked (iovec vec) cs false w (fc, f)
            (When-both live (λ a b. (a, b)) full some_cs)
            (When-map live (λ p. absurd (ground (arith, p))) fine))
      | inr some_of ↦ rw some_of (
          exec_progress-Ran vec wl w (skip_written 0 vec wl)
            (skip_written-Skipped 0 vec wl fc.1 (le wl refl)) fc.0 (le wl refl) fine)
    ]

    exec_finalize-Ran :
        (fin user : ℕ) (w : W)
        → Ran live blocked
            (finalize fin user ∷ cs)
            (exec_finalize os fd next (fill_all (finalize fin user ∷ cs)) (fill_all cs) fin user w)
    unfolding exec_finalize items
    exec_finalize-Ran fin user w = elim (Bool-cases (fin == 0)) [
      | inl null ↦ rw null (Ran-skip live blocked (finalize fin user) cs _ (rw null) (ih w))
      | inr called ↦ rw called (
          Ran-next live blocked (finalize fin user) cs (Item.call fin user ∷ []) _ (rw called)
            (ih w))
    ]

    exec_command-Ran :
        (lawful : IsLawful os) (answers : When live (Answers blocked os)) (c : Command) (w : W)
        → Fits c
        → When live (SomeOf c)
        → Ran live blocked (c ∷ cs) (exec_command os fd next (fill_all (c ∷ cs)) (fill_all cs) c w)
    unfolding exec_command
    exec_command-Ran lawful answers (iovec vec) w fc full =
        exec_iovec-Ran vec (os.writev w fd vec) fc (lawful.writev_le w fd vec) full
          (When-both live (λ a s. a.writev_fine w fd vec s) answers full)
    exec_command-Ran lawful answers (sendfile infd off len) w fc full =
        exec_sendfile-Ran infd off len (os.sendfile w fd infd off len) fc
          (lawful.sendfile_le w fd infd off len) full
          (When-both live (λ a s. a.sendfile_fine w fd infd off len s) answers full)
    exec_command-Ran lawful answers (finalize fin user) w fc full = exec_finalize-Ran fin user w

module _ {W : Type 0} (live : Bool) (blocked : Type 0) (os : Os W) (lawful : IsLawful os)
    (answers : When live (Answers blocked os)) (fd : ℕ) where
  execute_loop-Ran :
      (fuel : ℕ) (cs : List Command) (w : W)
      → length cs < fuel
      → AllFit cs
      → When live (AllSome cs)
      → Ran live blocked cs (execute_loop os fd fuel (fill_all cs) w)
  unfolding execute_loop
  execute_loop-Ran zero cs w h f s = absurd (omega arith)
  execute_loop-Ran (suc fuel) [] w h f s = record {
    executed = record {
      run = record { left = []; cont = false; log = []; world = w };
      remaining = [];
      returns = refl;
      left = refl;
      fit = tt;
      order = refl;
      shrinks = omega arith;
      pending = λ e. cc;
    };
    some_left = s;
    finishes = When-map live (λ a e. refl) s;
    advances = When-map live (λ a e. absurd (ground (arith, e))) s;
  }
  execute_loop-Ran (suc fuel) (c ∷ cs) w h f s =
      rw (is_empty-fill c (fill_all cs), execute_loop)
        (rw (read_command-fill c (fill_all cs) f.0) (
          exec_command-Ran live blocked os fd (execute_loop os fd fuel) cs f.1
            (AllSome-tail live c cs s)
            (λ w'. execute_loop-Ran fuel cs w' (omega arith) f.1 (AllSome-tail live c cs s)) lawful
            answers c w f.0 (SomeOf-head live c cs s)))

  -- Both: what `execute` leaves, and what it leaves where the kernel answers.
  pub execute-Ran :
      (cs : List Command) (w : W)
      → AllFit cs
      → When live (AllSome cs)
      → Ran live blocked cs (execute os fd (fill_all cs) w)
  unfolding execute
  execute-Ran cs w f s =
      execute_loop-Ran (suc (length (fill_all cs))) cs w (omega (arith, length-le-fill_all cs)) f s

module _ {W : Type 0} (os : Os W) (lawful : IsLawful os) (fd : ℕ) where
  -- From a buffer of commands that fit their fields, `execute` returns and never reads past the
  -- buffer; the bytes it sent and the finalizers it called, in that order, followed by what the
  -- commands that are left stand for, are what the commands stood for; it returns true only if a
  -- command is left.
  pub execute-Executed :
      (cs : List Command) (w : W) → AllFit cs → Executed cs (execute os fd (fill_all cs) w)
  execute-Executed cs w f = (execute-Ran false Unit os lawful tt fd cs w f tt).executed

  -- The same, where the kernel answers each request and no command is empty: `execute` returns false
  -- only if everything is done, and where it returns true it has done something or was told to wait.
  pub execute-Advanced :
      (blocked : Type 0) (cs : List Command) (w : W)
      → Answers blocked os
      → AllFit cs
      → AllSome cs
      → Advanced blocked cs (execute os fd (fill_all cs) w)
  execute-Advanced blocked cs w answers f s = record {
    executed = r.executed;
    some_left = r.some_left;
    finishes = r.finishes;
    advances = r.advances;
  }
    where
      r : Ran true blocked cs (execute os fd (fill_all cs) w)
      r = execute-Ran true blocked os lawful answers fd cs w f s
