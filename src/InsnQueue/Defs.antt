-- ===== src/InsnQueue/Defs.antt =====
-- The data of include/insn_queue.h.
use libpulp.Base.{ℕ, ◌*◌, Bool, leb}
use libpulp.Base.Memory.{Memory}

-- INSN_BUFFER_MAX
abbrev pub insn_buffer_max : ℕ
insn_buffer_max = 2 * 1024 * 1024

-- INSNQ_CURR_VERSION
abbrev pub insnq_curr_version : ℕ
insnq_curr_version = 1

-- struct insn_queue. `num_insns` and `size` are ints, held as their bit patterns; the buffer is
-- a memory of which the addresses below `insn_buffer_max` exist.
pub record Queue : Type 0 where
  pub version : ℕ
  pub num_insns : ℕ
  pub size : ℕ
  pub buffer : Memory

-- enum ulp_insn_type
abbrev pub ulp_insn_nop : ℕ
ulp_insn_nop = 0

abbrev pub ulp_insn_print : ℕ
ulp_insn_print = 1

abbrev pub ulp_insn_write : ℕ
ulp_insn_write = 2

-- sizeof(struct ulp_insn): a type byte and a 24-bit size
abbrev pub insn_len : ℕ
insn_len = 4

-- sizeof(struct ulp_insn_write): the base, `n` at offset 4, `address` at offset 8
abbrev pub write_len : ℕ
write_len = 16

-- ulp_insn_valid
abbrev pub insn_valid : ℕ → Bool
insn_valid type = leb type ulp_insn_write
