-- ===== src/InsnQueue/Execute.antt =====
-- insnq_interpret executes the commands that the queue holds.
use libpulp.Base.{
  ℕ, zero, suc, ◌+◌, ◌-◌, ◌^◌, ◌≤◌, ◌<◌, ◌≡◌, ap, ◌∙◌, List, [], ◌∷◌, ◌++◌, some, length, arith,
  if◌then◌else◌, true, ltb,
}
use libpulp.Base.Memory.{Memory, load, bytes_le, value_le, value_le-bytes_le}
use libpulp.Base.Words.{add_int, int_mod}
use libpulp.InsnQueue.Defs.{Queue, insn_buffer_max, ulp_insn_write, insn_len}
use libpulp.InsnQueue.Interpret.{
  Target, done, c_string, insn_size, interpret_insn, interpret_from, interpret, fault,
}
use libpulp.InsnQueue.Bounds.{print_size, write_size}
use libpulp.InsnQueue.Commands.{
  Command, print, write, size_of, IsText, IsInsn, Encodes, Holds, exec, NoneFails,
}

-- The text before the null character is read back.
c_string_lem :
    (m : Memory) (left a : ℕ) (text : List ℕ)
    → IsText text
    → length text < left
    → load m a (suc (length text)) ≡ text ++ 0 ∷ []
    → c_string m left a ≡ some text
unfolding c_string load
c_string_lem m zero a text h fits e = absurd (omega arith)
c_string_lem m (suc left) a [] h fits e = ground arith
c_string_lem m (suc left) a (c ∷ cs) h fits e = ground (arith, c_string_lem m left (suc a) cs)

insn_size_lem :
    (m : Memory) (pc size : ℕ)
    → load m (pc + 1) 3 ≡ bytes_le 3 size
    → size < 2 ^ 23
    → insn_size m pc ≡ size
unfolding insn_size
insn_size_lem m pc size e h = rw e (rw (value_le-bytes_le 3 size (omega arith)) (ground arith))

module _ {S : Type 0} (t : Target S) where
  interpret_insn-print :
      (m : Memory) (pc : ℕ) (text : List ℕ) (s : S)
      → IsInsn m pc (print text)
      → pc + size_of (print text) ≤ insn_buffer_max
      → interpret_insn t m pc s ≡ done (print_size text) (t.print text s)
  unfolding interpret_insn
  interpret_insn-print m pc text s h fits = ground (
    arith,
    c_string_lem m (insn_buffer_max - (pc + insn_len)) (pc + insn_len) text h.3,
    insn_size_lem m pc (print_size text) h.1,
  )

  -- A WRITE reads its fields back; what it returns depends on the success of the write.
  interpret_insn-write :
      (m : Memory) (pc addr : ℕ) (bytes : List ℕ) (s : S)
      → IsInsn m pc (write addr bytes)
      → pc + size_of (write addr bytes) ≤ insn_buffer_max
      → interpret_insn t m pc s ≡ (
          let (failed, s') = t.write_bytes bytes addr s in
          if failed then done (int_mod - 1) s' else done (write_size bytes) s')
  unfolding interpret_insn
  interpret_insn-write m pc addr bytes s h fits =
      let n_lem : value_le (load m (pc + 4) 4) ≡ length bytes =
        ap value_le h.2 ∙ value_le-bytes_le 4 (length bytes) (omega arith) in
      let addr_lem : value_le (load m (pc + 8) 8) ≡ addr =
        ap value_le h.3 ∙ value_le-bytes_le 8 addr (omega arith) in
      rw (h.0, n_lem, addr_lem, h.4, insn_size_lem m pc (write_size bytes) h.1 (omega arith))
        (ground arith)

  -- One round of the loop, if the next instruction is inside the buffer.
  round_any :
      (m : Memory) (size left pc r : ℕ) (s s' : S)
      → pc + 4 ≤ insn_buffer_max
      → m pc ≤ ulp_insn_write
      → interpret_insn t m pc s ≡ done r s'
      → interpret_from t m size (suc left) pc s ≡ interpret_from t m size left (add_int pc r) s'
  unfolding interpret_from
  round_any m size left pc r s s' fits type e = rw e (ground arith)

  round :
      (m : Memory) (size left pc r : ℕ) (s s' : S)
      → pc + 4 ≤ insn_buffer_max
      → m pc ≤ ulp_insn_write
      → interpret_insn t m pc s ≡ done r s'
      → pc + r ≤ insn_buffer_max
      → interpret_from t m size (suc left) pc s ≡ interpret_from t m size left (pc + r) s'
  round m size left pc r s s' fits type e next =
      round_any m size left pc r s s' fits type e
      ∙ ap (λ k. interpret_from t m size left k s') (omega arith)

  -- The loop runs the commands that are left and stops at the end of the queue.
  interpret_from-Encodes :
      (m : Memory) (size pc : ℕ) (cs : List Command) (s : S)
      → Encodes m pc size cs
      → NoneFails t cs s
      → interpret_from t m size (length cs) pc s ≡ done 0 (exec t cs s)
  unfolding exec
  interpret_from-Encodes m size pc [] s h ok = unfold interpret_from in ground arith
  interpret_from-Encodes m size pc (print text ∷ cs) s h ok =
      let s' = t.print text s in
      round m size (length cs) pc (print_size text) s s' (omega arith) (omega arith)
        (interpret_insn-print m pc text s h.0 h.1) h.1
      ∙ interpret_from-Encodes m size (pc + print_size text) cs s' h.2 ok
  interpret_from-Encodes m size pc (write addr bytes ∷ cs) s h ok =
      let s' = (t.write_bytes bytes addr s).1 in
      round m size (length cs) pc (write_size bytes) s s' (omega arith) (omega arith)
        (rw (interpret_insn-write m pc addr bytes s h.0 h.1, ok.0)) h.1
      ∙ interpret_from-Encodes m size (pc + write_size bytes) cs s' h.2 ok.1

  -- Interpreting a queue executes exactly its commands, in order, and reports success, if no write
  -- fails.
  pub interpret-exec :
      (cs : List Command) (q : Queue) (s : S)
      → Holds cs q
      → NoneFails t cs s
      → interpret t q s ≡ done 0 (exec t cs s)
  unfolding interpret
  interpret-exec cs q s h ok =
      ground (arith, interpret_from-Encodes q.buffer q.size 0 cs s h.content ok)

  -- A round whose instruction would stand outside of the buffer.
  round_out :
      (m : Memory) (size left pc : ℕ) (s : S)
      → insn_buffer_max < pc + 4
      → interpret_from t m size (suc left) pc s ≡ fault
  unfolding interpret_from
  round_out m size left pc s out = ground arith

  -- A write at the beginning of the queue that fails counts as an instruction of -1 bytes, as a
  -- 32-bit integer; if another instruction follows, interpreting the queue reads outside of the
  -- buffer.
  pub interpret_first_failure :
      (addr : ℕ) (bytes : List ℕ) (c : Command) (cs : List Command) (q : Queue) (s : S)
      → Holds (write addr bytes ∷ c ∷ cs) q
      → (t.write_bytes bytes addr s).0 ≡ true
      → (interpret_insn t q.buffer 0 s ≡ done (2 ^ 32 - 1) (t.write_bytes bytes addr s).1)
        × (interpret t q s ≡ fault)
  unfolding interpret
  interpret_first_failure addr bytes c cs q s h fails =
      let s' = (t.write_bytes bytes addr s).1 in
      let few : ltb q.num_insns (2 ^ 31) ≡ true = ground arith in
      let first : interpret_insn t q.buffer 0 s ≡ done (int_mod - 1) s' =
        rw (interpret_insn-write q.buffer 0 addr bytes s h.content.0 h.content.1, fails) in
      (
        first,
        rw (few, h.number)
            (round_any q.buffer q.size (suc (length cs)) 0 (int_mod - 1) s s' (omega arith)
                (omega arith) first
              ∙ round_out q.buffer q.size (length cs) (add_int 0 (int_mod - 1)) s' (omega arith)),
      )
