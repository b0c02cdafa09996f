-- ===== src/InsnQueue/Remote.antt =====
-- tools/insn_queue.c: the `ulp` tool takes the queue out of a process, executes it there, and
-- empties it.
use libpulp.Base.{
  ℕ, List, [], Option, none, some, Bool, true, take, drop, ltb, ◌==◌, not, if◌then◌else◌, ◌&&◌,
  replicate,
}
use libpulp.Base.Memory.{store, bytes_le, value_le}
use libpulp.Base.Words.{add_size, is_positive}
use libpulp.Errors.Codes.{enone, einsnq, eoldulp, eoldlibpulp}
use libpulp.Ptrace.Defs.{
  Tracee, done, failed, running, read_memory, write_bytes, write_bytes_ptrace,
}
use libpulp.InsnQueue.Defs.{Queue, insn_buffer_max, insnq_curr_version}
use libpulp.InsnQueue.Interpret.{Target, interpret}
use libpulp.InsnQueue.Interpret as Interpret

-- A return value: a code of libpulp, or an errno of the kernel, which is not 0.
pub data Status : Type 0 where
  code : ℕ → Status
  os_error : Status

-- How a function of this file ends; `stuck` is a transfer that has not ended within its fuel, and
-- `fault` a read outside of the buffer.
pub data Result (S A : Type 0) : Type 0 where
  returns : Status → A → S → Result S A
  stuck : Result S A
  fault : Result S A

-- offsetof(insn_queue_t, ...)
abbrev pub num_insns_offset : ℕ
num_insns_offset = 4

abbrev pub size_offset : ℕ
size_offset = 8

abbrev pub buffer_offset : ℕ
buffer_offset = 16

-- The fields before the buffer, read from their bytes, over a zeroed buffer.
unfoldable pub header_of : List ℕ → Queue
header_of bytes = record {
  version = value_le (take 4 bytes);
  num_insns = value_le (take 4 (drop num_insns_offset bytes));
  size = value_le (take 4 (drop size_offset bytes));
  buffer = λ p. 0;
}

-- The part of struct ulp_dynobj about the queue.
pub record Dynobj : Type 0 where
  pub insn_queue : ℕ
  pub insn_queue_version : ℕ

-- What the tool's interpreter acts on; `print` is printf.
abbrev pub tool : {S : Type 0} → Tracee S → (List ℕ → S → S) → Target S
tool t print = record { print = print; write_bytes = write_bytes_ptrace t }

module _ {S : Type 0} (t : Tracee S) (fuel : ℕ) where
  -- The second half of insnq_get_from_remote_process, which knows the header.
  unfoldable pub get_content : Queue → ℕ → S → Result S Queue
  get_content q queue_addr s =
      if is_positive q.version && ltb insnq_curr_version q.version
      then returns (code eoldulp) q s
      else if q.size == 0
      then returns (code enone) q s
      else if ltb insn_buffer_max q.size
      then returns (code einsnq) q s
      else elim (read_memory t fuel q.size (replicate q.size 0) (add_size queue_addr buffer_offset)
          s) [
            | done bytes s' ↦ returns (code enone) (record q { buffer = store q.buffer 0 bytes }) s'
            | failed s' ↦ returns os_error q s'
            | running ↦ stuck
          ]

  -- insnq_get_from_remote_process
  unfoldable pub get_from_remote_process : ℕ → S → Result S Queue
  get_from_remote_process queue_addr s =
      elim (read_memory t fuel buffer_offset (replicate buffer_offset 0) queue_addr s) [
        | done bytes s' ↦ get_content (header_of bytes) queue_addr s'
        | failed s' ↦ returns (code einsnq) (header_of []) s'
        | running ↦ stuck
      ]

  -- insnq_update_remote: `size` and `num_insns` become 0, here and in the process.
  unfoldable pub update_remote : Queue → ℕ → S → Result S Queue
  update_remote q queue_address s =
      let q' = record q { size = 0; num_insns = 0 } in
      elim (write_bytes t fuel (bytes_le 4 0) (add_size queue_address size_offset) s) [
        | running ↦ stuck
        | failed s1 ↦ returns (code einsnq) q' s1
        | done _ s1 ↦
            elim (write_bytes t fuel (bytes_le 4 0) (add_size queue_address num_insns_offset) s1) [
              | running ↦ stuck
              | failed s2 ↦ returns (code einsnq) q' s2
              | done _ s2 ↦ returns (code enone) q' s2
            ]
      ]

  -- insnq_get_version: the version, cached in the object; 0 if there is no queue or no answer.
  unfoldable pub get_version : Dynobj → S → Option (ℕ × Dynobj × S)
  get_version d s =
      if is_positive d.insn_queue_version
      then some (d.insn_queue_version, d, s)
      else if d.insn_queue == 0
      then some (0, d, s)
      else elim (read_memory t fuel 4 (bytes_le 4 d.insn_queue_version) d.insn_queue s) [
        | running ↦ none
        | failed s' ↦ some (0, d, s')
        | done bytes s' ↦
            let v = value_le bytes in some (v, record d { insn_queue_version = v }, s')
      ]

  -- insnq_check_compatibility
  unfoldable pub check_compatibility : Dynobj → S → Option (Bool × Dynobj × S)
  check_compatibility d s =
      if d.insn_queue == 0 then some (true, d, s) else elim (get_version d s) [
        | none ↦ none
        | some (v, d', s') ↦ some (not (is_positive v && ltb insnq_curr_version v), d', s')
      ]

module _ {S : Type 0} (t : Tracee S) (print : List ℕ → S → S) (fuel : ℕ) where
  -- insnq_interpret_from_process_ once the queue was fetched.
  unfoldable pub interpret_fetched : Queue → ℕ → S → Result S Queue
  interpret_fetched q queue_addr s =
      if is_positive q.size && ltb insn_buffer_max q.size
      then returns (code einsnq) q s
      else elim (interpret (tool t print) q s) [
        | Interpret.fault ↦ fault
        | Interpret.done r s' ↦
            if r == 0 then update_remote t fuel q queue_addr s' else returns (code einsnq) q s'
      ]

  -- insnq_interpret_from_process
  unfoldable pub interpret_from_process : ℕ → S → Result S Queue
  interpret_from_process queue_addr s =
      if queue_addr == 0
      then returns (code eoldlibpulp) (header_of []) s
      else elim (get_from_remote_process t fuel queue_addr s) [
        | stuck ↦ stuck
        | fault ↦ fault
        | returns os_error q s' ↦ returns os_error q s'
        | returns (code c) q s' ↦
            if c == enone then interpret_fetched q queue_addr s' else returns (code c) q s'
      ]
