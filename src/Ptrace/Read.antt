-- ===== src/Ptrace/Read.antt =====
-- read_memory and write_bytes: what a complete transfer gives, and what a short one does.
use libpulp.Base.{
  drop_all, take_all, ℕ, zero, suc, ◌+◌, ◌*◌, ◌^◌, ◌<◌, ◌≡◌, refl, ap, ◌∙◌, List, [], ◌++◌, some,
  true, false, length, drop, ◌==◌, if◌then◌else◌, arith,
}
use mathlib.Core.List.{append-nil}
use libpulp.Base.Memory.{load, store}
use libpulp.Base.Words.{add_size}
use libpulp.Ptrace.Defs.{
  Complete, Tracee, done, running, read_loop, read_memory, write_loop, write_bytes,
}

module _ {S : Type 0} (t : Tracee S) where
  read_step :
      (fuel len acc : ℕ) (buf : List ℕ) (addr : ℕ) (s : S) (bs : List ℕ) (s' : S)
      → t.readv len addr s ≡ some (bs, s')
      → read_loop t (suc fuel) len acc buf addr s ≡ (
          if add_size acc (length bs) == len
          then done (bs ++ drop (length bs) buf) s'
          else read_loop t fuel len (add_size acc (length bs)) (bs ++ drop (length bs) buf) addr s')
  unfolding read_loop
  read_step fuel len acc buf addr s bs s' e = rw (e, read_loop)

  -- A read of less than 2 ^ 64 bytes into a buffer of that length, which the kernel completes at
  -- once, returns exactly the bytes of the process, and leaves its memory as it was.
  pub read_memory-load :
      (fuel len : ℕ) (buf : List ℕ) (addr : ℕ) (s s' : S)
      → len < 2 ^ 64
      → length buf ≡ len
      → Complete t len addr s s'
      → (read_memory t (suc fuel) len buf addr s ≡ done (load (t.byte s) addr len) s')
        × (t.byte s' ≡ t.byte s)
  unfolding read_memory
  read_memory-load fuel len buf addr s s' small fits (bs, e, full) =
      let law = t.readv_lem len addr s s' bs e in
      let ends : (add_size 0 (length bs) == len) ≡ true = ground arith in
      let covers : bs ++ drop (length bs) buf ≡ load (t.byte s) addr len =
        ap (λ l. bs ++ l) (drop_all (length bs) buf (omega arith))
        ∙ append-nil bs
        ∙ law.0
        ∙ ap (λ n. load (t.byte s) addr n) full in
      (rw (read_step fuel len 0 buf addr s bs s' e, ends) (ap (λ l. done l s') covers), law.2)

  -- Once bytes were counted, complete transfers miss the length.
  read_loop-runs :
      (fuel len acc : ℕ) (buf : List ℕ) (addr : ℕ) (u : S)
      → 0 < acc
      → acc + fuel * len < 2 ^ 64
      → ((u : S) → (u' : S) × Complete t len addr u u')
      → read_loop t fuel len acc buf addr u ≡ running
  read_loop-runs zero len acc buf addr u pos fits full = unfold read_loop in refl
  read_loop-runs (suc fuel) len acc buf addr u pos fits full =
      let c = full u in
      let misses : (add_size acc (length c.1.0) == len) ≡ false = ground arith in
      let counts : add_size acc (length c.1.0) ≡ acc + len = ground arith in
      rw (read_step fuel len acc buf addr u c.1.0 c.0 c.1.1, misses, counts)
        (read_loop-runs fuel len (acc + len) (c.1.0 ++ drop (length c.1.0) buf) addr c.0
          (omega arith) (omega arith) full)

  -- A read whose first transfer is short, and whose later ones are complete, does not end: the
  -- count of bytes goes past the length.
  pub read_memory_short_runs :
      (fuel len : ℕ) (buf bs : List ℕ) (addr : ℕ) (s s' : S)
      → t.readv len addr s ≡ some (bs, s')
      → 0 < length bs
      → length bs < len
      → ((u : S) → (u' : S) × Complete t len addr u u')
      → length bs + fuel * len < 2 ^ 64
      → read_memory t (suc fuel) len buf addr s ≡ running
  unfolding read_memory
  read_memory_short_runs fuel len buf bs addr s s' e pos short full fits =
      let misses : (add_size 0 (length bs) == len) ≡ false = ground arith in
      let counts : add_size 0 (length bs) ≡ length bs = ground arith in
      rw (read_step fuel len 0 buf addr s bs s' e, misses, counts)
        (read_loop-runs fuel len (length bs) (bs ++ drop (length bs) buf) addr s' pos fits full)

  -- A write that the kernel completes at once stores exactly the buffer.
  pub write_bytes-store :
      (fuel : ℕ) (buf : List ℕ) (addr : ℕ) (s s' : S)
      → length buf < 2 ^ 64
      → t.writev buf addr s ≡ some (length buf, s')
      → (write_bytes t (suc fuel) buf addr s ≡ done [] s') × (t.byte s' ≡ store (t.byte s) addr buf)
  unfolding write_bytes write_loop
  write_bytes-store fuel buf addr s s' small e =
      let ends : (add_size 0 (length buf) == length buf) ≡ true = ground arith in
      (
        rw (e, write_loop, ends),
        (t.writev_lem buf addr (length buf) s s' e).1
            ∙ ap (store (t.byte s) addr) (take_all (length buf) buf (omega arith)),
      )
