-- ===== src/Ptrace/Defs.antt =====
-- The word loops of tools/ptrace.c. What a call of `ulp_ptrace` does to the process is a parameter.
use libpulp.Base.{
  ℕ, zero, suc, ◌/◌, ◌≡◌, List, [], ◌++◌, Option, none, some, Bool, true, false, length, take, drop,
  ltb, ◌==◌, ◌≤◌, if◌then◌else◌, ◌<◌,
}
use libpulp.Base.Memory.{Memory, load, store, bytes_le, value_le, IsBytes}
use libpulp.Base.Words.{add_size}

-- What tools/ptrace.c asks of the kernel for a process in state `S`, whose memory is `byte`: one
-- call of `ulp_ptrace` with PTRACE_PEEKDATA or PTRACE_POKEDATA, and one call of process_vm_readv or
-- process_vm_writev over a single range. `none` is a call that sets errno. The laws are what the
-- manual pages say of a call that succeeds: a transfer may be short.
pub record Tracee (S : Type 0) : Type 0 where
  pub byte : S → Memory
  pub peek : ℕ → S → Option ℕ
  pub poke : ℕ → ℕ → S → Option S
  pub readv : ℕ → ℕ → S → Option (List ℕ × S)
  pub writev : List ℕ → ℕ → S → Option (ℕ × S)
  pub byte-lt : (s : S) (a : ℕ) → byte s a < 256
  pub peek_lem : (a : ℕ) (s : S) (w : ℕ) → peek a s ≡ some w → w ≡ value_le (load (byte s) a 8)
  pub poke_lem :
      (a w : ℕ) (s s' : S) → poke a w s ≡ some s' → byte s' ≡ store (byte s) a (bytes_le 8 w)
  pub readv_lem :
      (len a : ℕ) (s s' : S) (bs : List ℕ)
      → readv len a s ≡ some (bs, s')
      → (bs ≡ load (byte s) a (length bs)) × (length bs ≤ len) × (byte s' ≡ byte s)
  pub writev_lem :
      (bs : List ℕ) (a r : ℕ) (s s' : S)
      → writev bs a s ≡ some (r, s')
      → (r ≤ length bs) × (byte s' ≡ store (byte s) a (take r bs))

-- The call of process_vm_readv in state `s` transfers the whole range.
abbrev pub Complete : {S : Type 0} → Tracee S → ℕ → ℕ → S → S → Type 0
Complete t len addr s s' = (bs : List ℕ) × (t.readv len addr s ≡ some (bs, s')) × (length bs ≡ len)

-- A process in which every call succeeds and every transfer is complete.
pub record Responsive {S : Type 0} (t : Tracee S) : Type 0 where
  pub peeks : (a : ℕ) (s : S) → (w : ℕ) × (t.peek a s ≡ some w)
  pub pokes : (a w : ℕ) (s : S) → (s' : S) × (t.poke a w s ≡ some s')
  pub reads : (len a : ℕ) (s : S) → (s' : S) × Complete t len a s s'
  pub writes :
      (bs : List ℕ) (a : ℕ) (s : S)
      → IsBytes bs
      → (s' : S) × (t.writev bs a s ≡ some (length bs, s'))

-- How a transfer loop ends; `running` is one that has not ended within its fuel.
pub data Transfer (S : Type 0) : Type 0 where
  done : List ℕ → S → Transfer S
  failed : S → Transfer S
  running : Transfer S

module _ {S : Type 0} (t : Tracee S) where
  -- The bytes behind the last whole long: the long there is read, changed and written.
  unfoldable pub write_remainder : List ℕ → ℕ → S → Bool × S
  write_remainder buf addr s =
      if ltb 0 (length buf)
      then elim (t.peek addr s) [
        | none ↦ (true, s)
        | some w ↦ elim (t.poke addr (value_le (buf ++ drop (length buf) (bytes_le 8 w))) s) [
          | none ↦ (true, s)
          | some s' ↦ (false, s')
        ]
      ]
      else (false, s)

  -- The loop over the longs, `num_longs` of them left.
  unfoldable pub write_longs : ℕ → List ℕ → ℕ → S → Bool × S
  write_longs zero buf addr s = write_remainder buf addr s
  write_longs (suc num_longs) buf addr s = elim (t.poke addr (value_le (take 8 buf)) s) [
    | none ↦ (true, s)
    | some s' ↦ write_longs num_longs (drop 8 buf) (add_size addr 8) s'
  ]

  -- write_bytes_ptrace; the Boolean is whether it failed
  unfoldable pub write_bytes_ptrace : List ℕ → ℕ → S → Bool × S
  write_bytes_ptrace buf addr s = write_longs (length buf / 8) buf addr s

  -- The loop of read_memory: each round asks for the whole range again, into the start of `buf`.
  unfoldable pub read_loop : ℕ → ℕ → ℕ → List ℕ → ℕ → S → Transfer S
  read_loop zero len acc buf addr s = running
  read_loop (suc fuel) len acc buf addr s = elim (t.readv len addr s) [
    | none ↦ failed s
    | some (bs, s') ↦
        let buf' = bs ++ drop (length bs) buf in
        let acc' = add_size acc (length bs) in
        let rest = read_loop fuel len acc' buf' addr s' in
        if acc' == len then done buf' s' else rest
  ]

  -- read_memory of `len` bytes into `buf`
  unfoldable pub read_memory : ℕ → ℕ → List ℕ → ℕ → S → Transfer S
  read_memory fuel len buf addr s = read_loop fuel len 0 buf addr s

  -- The loop of write_bytes, which writes the whole buffer in each round.
  unfoldable pub write_loop : ℕ → ℕ → List ℕ → ℕ → S → Transfer S
  write_loop zero acc buf addr s = running
  write_loop (suc fuel) acc buf addr s = elim (t.writev buf addr s) [
    | none ↦ failed s
    | some (r, s') ↦
        let acc' = add_size acc r in
        let rest = write_loop fuel acc' buf addr s' in
        if acc' == length buf then done [] s' else rest
  ]

  -- write_bytes
  unfoldable pub write_bytes : ℕ → List ℕ → ℕ → S → Transfer S
  write_bytes fuel buf addr s = write_loop fuel 0 buf addr s
