-- ===== src/InsnQueue/Interpret.antt =====
-- common/insn_queue.c: how the queue is executed.
use libpulp.Base.{
  ℕ, zero, suc, ◌+◌, ◌-◌, ◌^◌, List, [], ◌∷◌, Option, none, some, Bool, ltb, ◌==◌, if◌then◌else◌,
}
use libpulp.Base.Memory.{Memory, load, value_le}
use libpulp.Base.Words.{add_int, int_of_24, int_mod}
use libpulp.Errors.Codes.{einsnq}
use libpulp.InsnQueue.Defs.{
  Queue, insn_buffer_max, ulp_insn_nop, ulp_insn_print, insn_valid, insn_len, write_len,
}

-- What the interpreter acts on: printf, and the memory write of the decoder for WRITE, which
-- reports whether it failed.
pub record Target (S : Type 0) : Type 0 where
  pub print : List ℕ → S → S
  pub write_bytes : List ℕ → ℕ → S → Bool × S

-- A read outside of the buffer, which C leaves undefined, is `fault`.
pub data Outcome (S : Type 0) : Type 0 where
  done : ℕ → S → Outcome S
  fault : Outcome S

-- The characters from `a` up to the null character, looking at `left` bytes at most.
unfoldable pub c_string : Memory → ℕ → ℕ → Option (List ℕ)
c_string m zero a = none
c_string m (suc left) a =
    let rest = c_string m left (suc a) in
    if m a == 0 then some [] else elim rest [ none ↦ none | some s ↦ some (m a ∷ s) ]

-- `insn->size`
unfoldable pub insn_size : Memory → ℕ → ℕ
insn_size m pc = int_of_24 (value_le (load m (pc + 1) 3))

module _ {S : Type 0} (t : Target S) where
  -- insn_interpret_print
  unfoldable pub interpret_print : Memory → ℕ → S → Outcome S
  interpret_print m pc s = elim (c_string m (insn_buffer_max - (pc + insn_len)) (pc + insn_len)) [
    | none ↦ fault
    | some text ↦ done (insn_size m pc) (t.print text s)
  ]

  -- insn_interpret_write of tools/insn_queue.c; its -1 is the pattern 2 ^ 32 - 1
  unfoldable pub interpret_write : Memory → ℕ → S → Outcome S
  interpret_write m pc s =
      let n = value_le (load m (pc + 4) 4) in
      let address = value_le (load m (pc + 8) 8) in
      if ltb insn_buffer_max (pc + write_len + n)
      then fault
      else let (failed, s') = t.write_bytes (load m (pc + write_len) n) address s in
        if failed then done (int_mod - 1) s' else done (insn_size m pc) s'

  -- insn_interpret; NOP advances by sizeof(struct ulp_insn)
  unfoldable pub interpret_insn : Memory → ℕ → S → Outcome S
  unfolding interpret_print interpret_write
  interpret_insn m pc s =
      if m pc == ulp_insn_nop
      then done insn_len s
      else if m pc == ulp_insn_print
      then interpret_print m pc s
      else interpret_write m pc s

  -- The loop of insnq_interpret with `left` instructions to go, and the checks after it.
  unfoldable pub interpret_from : Memory → ℕ → ℕ → ℕ → S → Outcome S
  interpret_from m size zero pc s = if pc == size then done 0 s else done einsnq s
  interpret_from m size (suc left) pc s =
      if ltb insn_buffer_max (pc + insn_len)
      then fault
      else if insn_valid (m pc)
      then elim (interpret_insn m pc s) [
        | fault ↦ fault
        | done r s' ↦ interpret_from m size left (add_int pc r) s'
      ]
      else done einsnq s

  -- insnq_interpret. A negative `num_insns` makes no round, and fails the last check.
  unfoldable pub interpret : Queue → S → Outcome S
  interpret q s =
      if ltb q.num_insns (2 ^ 31)
      then interpret_from q.buffer q.size q.num_insns 0 s
      else done einsnq s
