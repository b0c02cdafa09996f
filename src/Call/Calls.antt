-- ===== src/Call/Calls.antt =====
-- The functions of tools/introspection.c for a process whose threads are hijacked: each writes what
-- libpulp.so reads, runs one of its routines in the main thread, and takes the return register.
use libpulp.Base.{
  ℕ, ◌%◌, List, [], ◌∷◌, ◌++◌, Option, none, some, Bool, true, false, ◌==◌, not, leb, length, same,
  if◌then◌else◌, ◌*◌, ◌||◌, take,
}
use libpulp.Base.Words.{int_mod}
use libpulp.Errors.Codes.{enone, eunknown, etargethook, ehooknotrun, eoverflow, eoldlibpulp, eagain}
use libpulp.Trigger.Defs.{minus_one}
use libpulp.Ptrace.Defs.{Tracee, Transfer, done, failed, running, write_bytes}
use libpulp.InsnQueue.Remote.{
  Status, code, os_error, Result, returns, stuck, fault, interpret_from_process,
}
use libpulp.Threads.Defs.{Tracer, UlpThread, UlpProcess}
use libpulp.Call.Defs.{Registers, Runner, run_and_redirect}
use libpulp.InsnQueue.Defs.{Queue}

-- struct ulp_dynobj of libpulp.so, as far as these functions go
pub record Libpulp : Type 0 where
  pub metadata_buffer : ℕ
  pub trigger : ℕ
  pub check : ℕ
  pub revert_all : ℕ
  pub global : ℕ
  pub insn_queue : ℕ

-- ULP_METADATA_BUF_LEN
abbrev pub metadata_buf_len : ℕ
metadata_buf_len = 512 * 1024

-- "target"
abbrev pub target_name : List ℕ
target_name = 116 ∷ 97 ∷ 114 ∷ 103 ∷ 101 ∷ 116 ∷ []

-- The thread that main_thread points to.
unfoldable pub thread_of : List (UlpThread Registers) → Option ℕ → Option (UlpThread Registers)
thread_of ts none = none
thread_of [] (some tid) = none
thread_of (t ∷ ts) (some tid) =
    let rest = thread_of ts (some tid) in if t.tid == tid then some t else rest

-- Whether a function returned 0.
unfoldable pub succeeded : Status → Bool
succeeded (code c) = c == 0
succeeded os_error = false

-- What the functions ask of the machine: the memory, the threads, the run of a thread, printf, and
-- PTRACE_SETOPTIONS, where `true` is a failure. The fuel is for the transfers and for the wait.
pub record Machine (S : Type 0) : Type 0 where
  pub tracee : Tracee S
  pub tracer : Tracer Registers S
  pub runner : Runner S
  pub print : List ℕ → S → S
  pub suspend_seccomp : ℕ → S → Bool × S
  pub fuel : ℕ
  pub rr_timeout : ℕ

module _ {S : Type 0} (m : Machine S) where
  -- A return of `error` for any failure, and the rest of the function otherwise.
  unfoldable pub or_fail : {A : Type 0} → ℕ → (S → Result S A) → A → Result S Bool → Result S A
  or_fail error next a stuck = stuck
  or_fail error next a fault = fault
  or_fail error next a (returns status _ s) =
      let rest = next s in if succeeded status then rest else returns (code error) a s

  unfoldable pub write_result : ℕ → Transfer S → Result S Bool
  write_result error (done bytes s) = returns (code enone) true s
  write_result error (failed s) = returns (code error) false s
  write_result error running = stuck

  -- write_bytes, as a return value
  unfoldable pub write_buffer : ℕ → List ℕ → ℕ → S → Result S Bool
  write_buffer error bytes addr s = write_result error (write_bytes m.tracee m.fuel bytes addr s)

  -- set_id_buffer
  unfoldable pub set_id_buffer : UlpProcess Registers → Libpulp → List ℕ → S → Result S Bool
  set_id_buffer p d patch_id s =
      if not p.all_threads_hijacked
      then returns (code eunknown) false s
      else write_buffer etargethook (take 32 patch_id) d.metadata_buffer s

  -- set_metadata_buffer
  unfoldable pub set_metadata_buffer : Libpulp → List ℕ → S → Result S Bool
  set_metadata_buffer d metadata s =
      if leb metadata_buf_len (length metadata)
      then returns (code eoverflow) false s
      else write_buffer eunknown metadata d.metadata_buffer s

  -- set_string_buffer; the string is without its null character
  unfoldable pub set_string_buffer : Libpulp → List ℕ → S → Result S Bool
  set_string_buffer d string s = set_metadata_buffer d (string ++ (0 ∷ [])) s

  unfoldable pub run_result : Option (ℕ × Registers × S) → Result S (Option Registers)
  run_result none = stuck
  run_result (some (ret, c, s)) = returns (code ret) (if ret == 0 then some c else none) s

  -- run_and_redirect in a thread, from its saved context.
  unfoldable pub run_routine : Option (UlpThread Registers) → ℕ → S → Result S (Option Registers)
  run_routine none routine s = fault
  run_routine (some t) routine s =
      run_result (run_and_redirect m.tracer m.runner m.fuel m.rr_timeout t.tid t.context routine s)

  -- Behind a run: the value of a run that failed, or what follows with the thread's registers.
  unfoldable pub after_run :
      {A : Type 0} → (Registers → S → Result S A) → A → Result S (Option Registers) → Result S A
  after_run next a stuck = stuck
  after_run next a fault = fault
  after_run next a (returns status none s) = returns status a s
  after_run next a (returns status (some c) s) = next c s

  -- patch_applied; the answer is what it leaves in `result`
  unfoldable pub patch_applied : UlpProcess Registers → Libpulp → List ℕ → S → Result S (Option ℕ)
  patch_applied p d id s =
      if not p.all_threads_hijacked
      then returns (code eunknown) none s
      else or_fail etargethook
          (λ s1.
            after_run (λ c s2. returns (code 0) (some (c.return_value % int_mod)) s2) none
              (run_routine (thread_of p.threads p.main_thread) d.check s1))
          none (set_id_buffer p d id s)

  unfoldable pub queue_result : Registers → Result S Queue → Result S Bool
  queue_result c stuck = stuck
  queue_result c fault = fault
  queue_result c (returns os_error q s) = returns os_error false s
  queue_result c (returns (code e) q s) =
      if e == 0 || e == eoldlibpulp
      then returns (code (c.return_value % int_mod)) true s
      else returns (code e) false s

  -- The queue of libpulp.so, and the return value of its routine.
  unfoldable pub interpret_queue : Libpulp → Registers → S → Result S Bool
  interpret_queue d c s =
      queue_result c (interpret_from_process m.tracee m.print m.fuel d.insn_queue s)

  -- What apply_patch does with the registers; `rax` is the return register before the run.
  unfoldable pub apply_returned : Libpulp → ℕ → Registers → S → Result S Bool
  apply_returned d rax c s =
      let interpreted = interpret_queue d c s in
      if c.return_value == 0 || c.return_value == eagain
      then interpreted
      else if c.return_value == rax
      then returns (code ehooknotrun) false s
      else interpreted

  unfoldable pub apply_trigger : Option (UlpThread Registers) → Libpulp → S → Result S Bool
  apply_trigger none d s = fault
  apply_trigger (some t) d s =
      after_run (apply_returned d t.context.return_value) false (run_routine (some t) d.trigger s)

  -- disable_seccomp, if it is asked for: whether it failed
  unfoldable pub prepare_seccomp : ℕ → Bool → S → Bool × S
  prepare_seccomp pid false s = (false, s)
  prepare_seccomp pid true s = m.suspend_seccomp pid s

  -- apply_patch behind the write of the metadata
  unfoldable pub apply_written : UlpProcess Registers → Libpulp → Bool → S → Result S Bool
  apply_written p d disable_seccomp s =
      let (refused, s') = prepare_seccomp p.pid disable_seccomp s in
      let applied = apply_trigger (thread_of p.threads p.main_thread) d s' in
      if refused then returns os_error false s' else applied

  -- apply_patch; the Boolean is whether the routine's value was returned
  unfoldable pub apply_patch : UlpProcess Registers → Libpulp → List ℕ → Bool → S → Result S Bool
  apply_patch p d metadata disable_seccomp s =
      if not p.all_threads_hijacked
      then returns (code eunknown) false s
      else or_fail etargethook (apply_written p d disable_seccomp) false
          (set_metadata_buffer d metadata s)

  -- The library that revert_patches_from_lib names to libpulp.so; `objs` is the name of the first
  -- target library in the livepatch that was loaded.
  unfoldable pub library_to_revert : Option (List ℕ) → List ℕ → List ℕ
  library_to_revert none lib_name = lib_name
  library_to_revert (some target) lib_name = if same lib_name target_name then target else lib_name

  -- revert_patches_from_lib
  unfoldable pub revert_patches_from_lib :
      UlpProcess Registers → Libpulp → Option (List ℕ) → List ℕ → S → Result S Bool
  revert_patches_from_lib p d objs lib_name s =
      if not p.all_threads_hijacked
      then returns (code eunknown) false s
      else or_fail etargethook
          (λ s1.
            after_run (interpret_queue d) false
              (run_routine (thread_of p.threads p.main_thread) d.revert_all s1))
          false (set_string_buffer d (library_to_revert objs lib_name) s)

  -- read_global_universe; the answer is the new field of the process
  unfoldable pub read_global_universe : UlpProcess Registers → Libpulp → S → Result S (Option ℕ)
  read_global_universe p d s =
      if not p.all_threads_hijacked
      then returns (code eunknown) none s
      else elim (run_routine (thread_of p.threads p.main_thread) d.global s) [
        | stuck ↦ stuck
        | fault ↦ fault
        | returns status none s' ↦ returns (code minus_one) none s'
        | returns status (some c) s' ↦ returns (code 0) (some c.return_value) s'
      ]
