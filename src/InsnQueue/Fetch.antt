-- ===== src/InsnQueue/Fetch.antt =====
-- insnq_get_from_remote_process gives the queue that the process holds.
use libpulp.Base.{
  ℕ, suc, ◌+◌, ◌^◌, ◌≤◌, ◌<◌, ◌≡◌, refl, sym, ap, ◌∙◌, List, true, false, take, drop, ltb, ◌==◌,
  arith, replicate, length-replicate, ◌&&◌,
}
use libpulp.Base.Memory.{
  Memory, load, store, bytes_le, value_le, value_le-bytes_le, drop-load, take-load, store-load_copy,
}
use native.Mathlib.Decide.{ℕ_discrete}
use libpulp.Base.Words.{add_size, is_positive}
use libpulp.Errors.Codes.{enone}
use libpulp.Ptrace.Defs.{Tracee, Complete}
use libpulp.Ptrace.Read.{read_memory-load}
use libpulp.InsnQueue.Defs.{Queue, insn_buffer_max, insnq_curr_version}
use libpulp.InsnQueue.Commands.{Command, Holds}
use libpulp.InsnQueue.Extend.{Encodes-ext}
use libpulp.InsnQueue.Remote.{returns, code, header_of, get_content, get_from_remote_process}

-- The process's memory at `a` is the queue, in the layout of struct insn_queue.
pub record IsImage (q : Queue) (m : Memory) (a : ℕ) : Type 0 where
  pub version : load m a 4 ≡ bytes_le 4 q.version
  pub num_insns : load m (a + 4) 4 ≡ bytes_le 4 q.num_insns
  pub size : load m (a + 8) 4 ≡ bytes_le 4 q.size
  pub content : load m (a + 16) q.size ≡ load q.buffer 0 q.size

-- The copy of the queue in the tool.
abbrev pub copied : Queue → Queue
copied q = record q { buffer = store (λ p. 0) 0 (load q.buffer 0 q.size) }

copied-Holds : (cs : List Command) (q : Queue) → Holds cs q → Holds cs (copied q)
copied-Holds cs q h = record {
  valid = record { within = h.valid.within; counted = h.valid.counted };
  number = h.number;
  content =
      Encodes-ext q.buffer (copied q).buffer 0 q.size cs
        (λ p lt. store-load_copy (λ p. 0) q.buffer 0 q.size p (omega arith) (omega arith))
        h.content;
}

header_of_image :
    (q : Queue) (m : Memory) (a : ℕ)
    → IsImage q m a
    → q.version < 2 ^ 32
    → q.num_insns < 2 ^ 32
    → q.size < 2 ^ 32
    → header_of (load m a 16) ≡ record q { buffer = λ p. 0 }
unfolding header_of
header_of_image q m a i hv hn hs =
    let v : value_le (take 4 (load m a 16)) ≡ q.version =
      ap value_le (take-load m a 4 12 ∙ i.version) ∙ value_le-bytes_le 4 q.version (omega arith) in
    let n : value_le (take 4 (drop 4 (load m a 16))) ≡ q.num_insns =
      ap value_le
        (ap (take 4) (drop-load m a 4 16 (omega arith)) ∙ take-load m (a + 4) 4 8 ∙ i.num_insns)
      ∙ value_le-bytes_le 4 q.num_insns (omega arith) in
    let s : value_le (take 4 (drop 8 (load m a 16))) ≡ q.size =
      ap value_le
        (ap (take 4) (drop-load m a 8 16 (omega arith)) ∙ take-load m (a + 8) 4 4 ∙ i.size)
      ∙ value_le-bytes_le 4 q.size (omega arith) in
    λ j. record { version = v j; num_insns = n j; size = s j; buffer = λ p. 0 }

module _ {S : Type 0} (t : Tracee S)
    (reads : (len a : ℕ) (u : S) → (u' : S) × Complete t len a u u') where
  get_content-copied :
      (fuel a : ℕ) (q : Queue) (s : S)
      → q.version ≤ insnq_curr_version
      → q.size ≤ insn_buffer_max
      → a + 16 < 2 ^ 64
      → load (t.byte s) (a + 16) q.size ≡ load q.buffer 0 q.size
      → (s' : S) × (get_content t (suc fuel) (record q { buffer = λ p. 0 }) a s
          ≡ returns (code enone) (copied q) s')
        × (t.byte s' ≡ t.byte s)
  unfolding get_content
  get_content-copied fuel a q s v small fits e =
      let old : (is_positive q.version && ltb insnq_curr_version q.version) ≡ false =
        ground arith in
      elim (ℕ_discrete q.size 0) [
        | yes z ↦
            let none_copied : (λ p. 0) ≡ (copied q).buffer =
              unfold store load in ap (λ n. store (λ p. 0) 0 (load q.buffer 0 n)) (sym z) in
            let empty : (q.size == 0) ≡ true = ground arith in
            (
              s,
              rw (old, empty)
                  (ap (λ b. returns (code enone) (record q { buffer = b }) s) none_copied),
              refl,
            )
        | no nz ↦
            let some_bytes : (q.size == 0) ≡ false = ground arith in
            let room : ltb insn_buffer_max q.size ≡ false = ground arith in
            let at : add_size a 16 ≡ a + 16 = omega arith in
            let r = reads q.size (a + 16) s in
            let got =
              read_memory-load t fuel q.size (replicate q.size 0) (a + 16) s r.0 (omega arith)
                (length-replicate q.size 0) r.1 in
            (
              r.0,
              rw (old, some_bytes, room, at, got.0)
                  (ap (λ l. returns (code enone) (record q { buffer = store (λ p. 0) 0 l }) r.0) e),
              got.1,
            )
      ]

  -- What the tool fetches holds the commands that the process queued, and fetching leaves the
  -- process's memory alone.
  pub get_from_remote_process-Holds :
      (fuel a : ℕ) (cs : List Command) (q : Queue) (s : S)
      → Holds cs q
      → IsImage q (t.byte s) a
      → q.version ≤ insnq_curr_version
      → a + 16 < 2 ^ 64
      → (q' : Queue) × (s' : S) × (get_from_remote_process t (suc fuel) a s
          ≡ returns (code enone) q' s')
        × Holds cs q'
        × (t.byte s' ≡ t.byte s)
  unfolding get_from_remote_process
  get_from_remote_process-Holds fuel a cs q s h i v fits =
      let r = reads 16 a s in
      let got = read_memory-load t fuel 16 (replicate 16 0) a s r.0 (omega arith) refl r.1 in
      let header = header_of_image q (t.byte s) a i (omega arith) (omega arith) (omega arith) in
      let c =
        get_content-copied fuel a q r.0 v (omega arith) fits
          (ap (λ m. load m (a + 16) q.size) got.1 ∙ i.content) in
      (
        copied q,
        c.0,
        rw (got.0, header, get_from_remote_process) c.1,
        copied-Holds cs q h,
        c.2 ∙ got.1,
      )
