-- ===== src/Tests/Calls.antt =====
-- A process whose trigger routine queues a text and a write. The memory also holds the clock, at
-- address 0, and for each thread whether it is traced.
use mathlib.Core.Option.{some-injective}
use libpulp.Base.{
  ℕ, ◌+◌, ◌%◌, ◌≤◌, ◌≡◌, ◌≢◌, inl, refl, sym, ap, List, [], ◌∷◌, some, Bool, true, false, ◌==◌, ltb,
  leb, ◌&&◌, if◌then◌else◌, arith, ◌∙◌, ◌⊎◌,
}
use libpulp.Base.Memory.{Memory, store_byte, store, load, bytes_le}
use libpulp.Base.Words.{int_mod}
use libpulp.InsnQueue.Defs.{insnq_curr_version}
use libpulp.InsnQueue.Insert.{
  align_to, get_writable_area, print_insn_size, insert_print_sized, insert_print, write_insn_size,
  insert_write_sized, insert_write,
}
use libpulp.InsnQueue.Commands.{Command}
use libpulp.InsnQueue.Protocol.{applied, emptied}
use libpulp.InsnQueue.Remote.{returns, code}
use libpulp.InsnQueue.Fetch.{IsImage}
use libpulp.Threads.Defs.{Tracer, UlpThread, UlpProcess}
use libpulp.Call.Defs.{
  Registers, Runner, changed, WaitStatus, run_and_redirect, wait_loop, wait_result, run_ended,
  read_registers,
}
use libpulp.Call.Run.{Ran, run_and_redirect-returns}
use libpulp.Call.Calls.{Libpulp, Machine, apply_patch, thread_of, prepare_seccomp}
use libpulp.Call.Apply.{Served, Prepared, apply_patch-applied}
use libpulp.Call.Retry.{Caller, Settled, is_taken, is_final, ebusy, ulp_ptrace-Settled}
use libpulp.Call.Success.{Zero, Complete, apply_patch-Complete}
use libpulp.Tests.Process.{process, process-Responsive}
use libpulp.Tests.Queues.{hello, poke_three, two, two-Holds, image, silent}

abbrev pub flag : ℕ → Bool → Memory → Memory
flag t b m = store_byte m (65536 + t) (if b then 1 else 0)

pub flag_self : (t : ℕ) (b : Bool) (m : Memory) → (flag t b m (65536 + t) == 1) ≡ b
flag_self t true m = ground arith
flag_self t false m = ground arith

pub flag_other :
    (t x : ℕ) (b : Bool) (m : Memory) → x ≢ t → (flag t b m (65536 + x) == 1) ≡ (m (65536 + x) == 1)
flag_other t x b m ne = ground arith

pub never :
    (t : ℕ) (m : Memory) → false ≡ true → (flag t false m (65536 + t) == 1) ≡ (m (65536 + t) == 1)
never t m e = absurd (cc)

-- Registers with a return value, on a stack at 8000.
abbrev pub registers : ℕ → Registers
registers v = record { return_value = v; program_counter = 100; stack_top = 8000; others = [] }

abbrev pub tracer : Tracer Registers Memory
tracer = record {
  traced = λ m t. m (65536 + t) == 1;
  calloc = λ m. true;
  attach = λ t m. (false, flag t true m);
  detach = λ t m. (false, flag t false m);
  get_regs = λ t m. (some (registers 0), m);
  set_regs = λ t c m. (false, m);
  attached_lem = λ t m e. flag_self t true m;
  attach_other = λ t x m ne. flag_other t x true m ne;
  detached_lem = λ t m e. flag_self t false m;
  detach_failed = λ t m e. never t m e;
  detach_other = λ t x m ne. flag_other t x false m ne;
  get_regs_lem = λ t x m. refl;
  set_regs_lem = λ t x c m. refl;
}

-- The memory when the routine has queued its instructions.
abbrev with_queue : Memory → Memory
with_queue m a = if leb 4096 a && ltb a 8192 then image a else m a

abbrev stopped : WaitStatus
stopped = record { is_exited = false; is_core_dump = false; is_stopped = true }

abbrev runner : Runner Memory
runner = record {
  cont = λ t m. (false, m);
  waitpid = λ t m. (changed t stopped, with_queue m);
  usleep = λ m. store_byte m 0 (m 0 + 100);
  clock = λ m. m 0;
  wait_lem = λ t m. omega arith;
  usleep_lem = λ m. omega arith;
}

abbrev machine : Machine Memory
machine = record {
  tracee = process;
  tracer = tracer;
  runner = runner;
  print = silent;
  suspend_seccomp = λ t m. (false, m);
  fuel = 1;
  rr_timeout = 0;
}

abbrev main : UlpThread Registers
main = record { tid = 3; context = registers 7 }

abbrev held : UlpProcess Registers
held = record { pid = 3; all_threads_hijacked = true; threads = main ∷ []; main_thread = some 3 }

abbrev libpulp_so : Libpulp
libpulp_so = record {
  metadata_buffer = 20000;
  trigger = 300;
  check = 310;
  revert_all = 320;
  global = 330;
  insn_queue = 4096;
}

abbrev commands : List Command
commands = hello ∷ poke_three ∷ []

abbrev before : Memory
before a = 0

image_there : (m : Memory) → IsImage two (process.byte (with_queue m)) 4096
unfolding align_to get_writable_area print_insn_size insert_print_sized insert_print write_insn_size
    insert_write_sized insert_write store bytes_le load
image_there m = record { version = refl; num_insns = refl; size = refl; content = refl }

two_version : two.version ≤ insnq_curr_version
unfolding align_to get_writable_area print_insn_size insert_print_sized insert_print write_insn_size
    insert_write_sized insert_write store bytes_le load
two_version = omega arith

run_and_redirect-returns_example :
    (ret : ℕ) × (c : Registers) × (m : Memory) × (run_and_redirect tracer runner 1 0 3
        (registers 7)
        300
        before
      ≡ some (ret, c, m))
    × (ret ≡ 0 → Ran tracer runner 3 (registers 7) 300 before c m)
run_and_redirect-returns_example =
    run_and_redirect-returns tracer runner 1 0 3 (registers 7) 300 before (omega arith)
      (omega arith) (omega arith)

serves : (m : Memory) → Served machine main 300 4096 commands m
unfolding run_and_redirect wait_loop wait_result run_ended read_registers
serves m = record {
  answer = registers 0;
  behind = with_queue m;
  runs = refl;
  ran = inl refl;
  queue = two;
  holds = two-Holds;
  image = image_there m;
  version = two_version;
}

abbrev metadata : List ℕ
metadata = 1 ∷ 2 ∷ []

apply_patch-applied_example :
    (s2 : Memory) × (v : Served machine main 300 4096 commands s2) × (s' : Memory) × Prepared
      machine held libpulp_so metadata false before s2
    × (apply_patch machine held libpulp_so metadata false before
        ≡ returns (code (v.answer.return_value % int_mod)) true s')
    × (machine.tracee.byte s' ≡ emptied 4096 (applied commands (machine.tracee.byte v.behind)))
unfolding thread_of prepare_seccomp
apply_patch-applied_example =
    apply_patch-applied machine held libpulp_so 0 metadata false main commands before refl
      process-Responsive (λ text m. refl) (λ m. (m, refl)) refl refl
      (omega arith, (omega arith, tt)) (omega arith) (omega arith) (omega arith)
      ((omega arith, (omega arith, (omega arith, tt))), omega arith, tt) (λ s2 prepared. serves s2)

applied-Zero : Zero (apply_patch machine held libpulp_so metadata false before)
unfolding run_and_redirect wait_loop wait_result run_ended read_registers
applied-Zero =
    let (s2, v, s', prepared, e, memory) = apply_patch-applied_example in
    let left : ℕ × Registers × Memory = (0, registers 0, with_queue s2) in
    let right : ℕ × Registers × Memory = (0, v.answer, v.behind) in
    let answer : registers 0 ≡ v.answer = ap (λ x. x.1) (some-injective left right v.runs) in
    let low : v.answer.return_value % int_mod ≡ 0 =
      ap (λ c. c.return_value % int_mod) (sym answer) in
    (true, s', e ∙ ap (λ c. returns (code c) true s') low)

apply_patch-Complete_example : Complete machine held libpulp_so metadata false before
apply_patch-Complete_example =
    apply_patch-Complete machine held libpulp_so metadata false before applied-Zero

busy_errno :
    (s : ℕ)
    → (is_taken (if ltb s 30000 then ebusy else 0) ≡ true)
      ⊎ (is_final (if ltb s 30000 then ebusy else 0) ≡ true)
busy_errno s = ground arith

-- A process that another tool holds for three hundredths of a second; the state is the clock.
abbrev busy : Caller ℕ
busy = record {
  ptrace = λ s. (record { ret = 0; errno = if ltb s 30000 then ebusy else 0 }, s);
  usleep = λ s. s + 10000;
  clock = λ s. s;
  call_lem = λ s. omega arith;
  usleep_lem = λ s. omega arith;
  errno_lem = busy_errno;
}

ulp_ptrace-Settled_example : Settled busy 500 0
ulp_ptrace-Settled_example = ulp_ptrace-Settled busy 500 0 (omega arith)
