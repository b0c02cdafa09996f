-- ===== src/Call/Defs.antt =====
-- ulp_ptrace and run_and_redirect of tools/ptrace.c, and the macros of
-- include/arch/x86_64/arch_common.h.
use libpulp.Base.{
  ℕ, zero, suc, ◌+◌, ◌-◌, ◌%◌, ◌^◌, List, Option, none, some, Bool, ◌==◌, ◌||◌, ltb, if◌then◌else◌,
  bit_and, ◌/◌, ◌≤◌,
}
use libpulp.Base.Words.{size_mod}
use libpulp.Errors.Codes.{eunknown, etime, etargethook}
use libpulp.Trigger.Defs.{minus_one}
use libpulp.Threads.Defs.{Tracer}

-- registers_t, up to the registers that the code names
pub record Registers : Type 0 where
  pub return_value : ℕ
  pub program_counter : ℕ
  pub stack_top : ℕ
  pub others : List ℕ

-- What the macros WIFEXITED, WCOREDUMP and WIFSTOPPED say of a status.
pub record WaitStatus : Type 0 where
  pub is_exited : Bool
  pub is_core_dump : Bool
  pub is_stopped : Bool

-- What waitpid gives: -1, 0, or a process with its status.
pub data Waited : Type 0 where
  wait_error : Waited
  no_change : Waited
  changed : ℕ → WaitStatus → Waited

-- The rest of what run_and_redirect asks of the kernel: PTRACE_CONT, where `true` is a failure,
-- waitpid with WNOHANG and WSTOPPED, and usleep(100). The clock is in microseconds: it does not go
-- back, and a usleep takes its time.
pub record Runner (S : Type 0) : Type 0 where
  pub cont : ℕ → S → Bool × S
  pub waitpid : ℕ → S → Waited × S
  pub usleep : S → S
  pub clock : S → ℕ
  pub wait_lem : (pid : ℕ) (s : S) → clock s ≤ clock (waitpid pid s).1
  pub usleep_lem : (s : S) → clock s + 100 ≤ clock (usleep s)

-- time(NULL)
abbrev pub time : {S : Type 0} → Runner S → S → ℕ
time r s = r.clock s / 1000000

-- RED_ZONE_LEN
abbrev pub red_zone_len : ℕ
red_zone_len = 128

-- RESTART_SYSCALL_SIZE
abbrev pub restart_syscall_size : ℕ
restart_syscall_size = 2

-- The registers that run_and_redirect sets; unsigned long wraps around.
unfoldable pub redirected : Registers → ℕ → Registers
redirected regs routine = record regs {
  program_counter = (routine + restart_syscall_size) % size_mod;
  stack_top = bit_and ((regs.stack_top + (size_mod - red_zone_len)) % size_mod) (2 ^ 64 - 2 ^ 6);
}

-- A round of the loop behind its waitpid: `some` is the value it is left with, 0 for success.
unfoldable pub wait_result : ℕ → Waited → Option ℕ
wait_result pid wait_error = some eunknown
wait_result pid no_change = none
wait_result pid (changed ret status) =
    if ret == pid
    then if status.is_exited || status.is_core_dump
      then some eunknown
      else if status.is_stopped
      then some 0
      else none
    else none

module _ {S : Type 0} (k : Tracer Registers S) (r : Runner S) where
  -- The loop that waits for the process, begun at t0.
  unfoldable pub wait_loop : ℕ → ℕ → ℕ → ℕ → S → Option (ℕ × S)
  wait_loop zero timeout pid t0 s = none
  wait_loop (suc fuel) timeout pid t0 s =
      let (w, s1) = r.waitpid pid s in
      let s2 = r.usleep s1 in
      let rest = wait_loop fuel timeout pid t0 s2 in
      elim (wait_result pid w) [
        | some ret ↦ some (ret, s1)
        | none ↦ if ltb (time r s2) (t0 + timeout) then rest else some (etime, s2)
      ]

  -- PTRACE_GETREGS at the end
  unfoldable pub read_registers : ℕ → Registers → S → ℕ × Registers × S
  read_registers pid regs s =
      let (got, s') = k.get_regs pid s in
      elim got [ none ↦ (minus_one, regs, s') | some context ↦ (0, context, s') ]

  -- Behind the loop.
  unfoldable pub run_ended : ℕ → Registers → Option (ℕ × S) → Option (ℕ × Registers × S)
  run_ended pid regs none = none
  run_ended pid regs (some (ret, s)) =
      if ret == 0 then some (read_registers pid regs s) else some (ret, regs, s)

  -- run_and_redirect, with rr_timeout in seconds; the registers are those left in the argument
  unfoldable pub run_and_redirect : ℕ → ℕ → ℕ → Registers → ℕ → S → Option (ℕ × Registers × S)
  run_and_redirect fuel timeout pid regs routine s =
      let regs' = redirected regs routine in
      let (unset, s1) = k.set_regs pid regs' s in
      let (halted, s2) = r.cont pid s1 in
      let waited = run_ended pid regs' (wait_loop fuel timeout pid (time r s2) s2) in
      if unset
      then some (etargethook, regs', s1)
      else if halted
      then some (etargethook, regs', s2)
      else waited
