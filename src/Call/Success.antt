-- ===== src/Call/Success.antt =====
-- What a return value 0 of apply_patch says.
use libpulp.Base.{
  ℕ, ◌%◌, ◌<◌, ◌≡◌, ◌≢◌, ◌⊎◌, inl, inr, refl, ap, List, length, Option, none, some, Bool, true,
  false, arith, ◌==◌, leb, Bool-cases,
}
use libpulp.Base.Words.{int_mod}
use libpulp.Errors.Codes.{eunknown, etargethook, eoldlibpulp}
use libpulp.Ptrace.Defs.{Transfer, done, failed, running, write_bytes}
use libpulp.InsnQueue.Defs.{Queue}
use libpulp.InsnQueue.Remote.{
  Status, Result, returns, stuck, fault, code, os_error, interpret_from_process,
}
use libpulp.Threads.Defs.{UlpThread, UlpProcess}
use libpulp.Call.Defs.{Registers, run_and_redirect}
use libpulp.Call.Calls.{
  Libpulp, Machine, metadata_buf_len, thread_of, apply_patch, apply_written, apply_trigger,
  apply_returned, interpret_queue, set_metadata_buffer, write_buffer, or_fail, succeeded,
  run_routine, after_run, prepare_seccomp, queue_result, write_result, run_result,
}

-- The function returned 0.
abbrev pub Zero : {S A : Type 0} → Result S A → Type 0
Zero {S} {A} r = (a : A) × (s : S) × (r ≡ returns (code 0) a s)

module _ {S : Type 0} (m : Machine S) where
  or_fail-Zero :
      (error : ℕ) (next : S → Result S Bool) (r : Result S Bool)
      → error ≢ 0
      → Zero (or_fail m error next false r)
      → (status : Status) × (a : Bool) × (s : S) × (r ≡ returns status a s)
        × (succeeded status ≡ true)
        × Zero (next s)
  unfolding or_fail
  or_fail-Zero error next stuck bad (b, s', e) = absurd (cc)
  or_fail-Zero error next fault bad (b, s', e) = absurd (cc)
  or_fail-Zero error next (returns status a s) bad (b, s', e) =
      elim (Bool-cases (succeeded status)) [
        | inl yes_ok ↦ (status, a, s, refl, yes_ok, (b, s', ground arith))
        | inr wrong ↦ absurd (ground arith)
      ]

  write_result-ok :
      (error : ℕ) (w : Transfer S) (status : Status) (a : Bool) (s : S)
      → error ≢ 0
      → write_result m error w ≡ returns status a s
      → succeeded status ≡ true
      → (bytes : List ℕ) × (w ≡ done bytes s)
  unfolding write_result succeeded
  write_result-ok error (done bytes s1) status a s bad e ok =
      (bytes, ap (done bytes) (ground arith))
  write_result-ok error (failed s1) status a s bad e ok = absurd (ground arith)
  write_result-ok error running status a s bad e ok = absurd (cc)

  queue_result-Zero :
      (c : Registers) (r : Result S Queue)
      → Zero (queue_result m c r)
      → (e : ℕ) × (q : Queue) × (s : S) × (r ≡ returns (code e) q s)
        × ((e ≡ 0) ⊎ (e ≡ eoldlibpulp))
        × (c.return_value % int_mod ≡ 0)
  unfolding queue_result
  queue_result-Zero c stuck (b, s', z) = absurd (cc)
  queue_result-Zero c fault (b, s', z) = absurd (cc)
  queue_result-Zero c (returns os_error q s) (b, s', z) = absurd (cc)
  queue_result-Zero c (returns (code e) q s) (b, s', z) =
      (e, q, s, refl, ground arith, ground arith)

  apply_returned-Zero :
      (d : Libpulp) (rax : ℕ) (c : Registers) (s : S)
      → Zero (apply_returned m d rax c s)
      → Zero (interpret_queue m d c s)
  unfolding apply_returned
  apply_returned-Zero d rax c s (b, s', z) = (b, s', ground arith)

  after_run-Zero :
      (next : Registers → S → Result S Bool) (o : Option (ℕ × Registers × S))
      → Zero (after_run m next false (run_result m o))
      → (c : Registers) × (s : S) × (o ≡ some (0, c, s)) × Zero (next c s)
  unfolding after_run run_result
  after_run-Zero next none (b, s', z) = absurd (cc)
  after_run-Zero next (some (ret, c, s)) (b, s', z) = elim (Bool-cases (ret == 0)) [
    | inl good ↦
        let zero_ret : ret ≡ 0 = ground arith in
        (c, s, ap (λ x. some (x, c, s)) zero_ret, (b, s', ground arith))
    | inr bad ↦ absurd (ground arith)
  ]

  -- Every step that apply_patch takes, in its order, and none of them failed.
  pub record Complete (p : UlpProcess Registers) (d : Libpulp) (metadata : List ℕ)
      (disable_seccomp : Bool) (s : S) : Type 0 where
    pub hijacked : p.all_threads_hijacked ≡ true
    pub short : length metadata < metadata_buf_len
    pub bytes : List ℕ
    pub written : S
    pub writes : write_bytes m.tracee m.fuel metadata d.metadata_buffer s ≡ done bytes written
    pub prepared : (prepare_seccomp m p.pid disable_seccomp written).0 ≡ false
    pub thread : UlpThread Registers
    pub main : thread_of p.threads p.main_thread ≡ some thread
    pub answer : Registers
    pub behind : S
    pub runs :
        run_and_redirect m.tracer m.runner m.fuel m.rr_timeout thread.tid thread.context d.trigger
          (prepare_seccomp m p.pid disable_seccomp written).1
        ≡ some (0, answer, behind)
    pub returned : answer.return_value % int_mod ≡ 0
    pub queue_status : ℕ
    pub queue : Queue
    pub final : S
    pub interprets :
        interpret_from_process m.tracee m.print m.fuel d.insn_queue behind
        ≡ returns (code queue_status) queue final
    pub fetched : (queue_status ≡ 0) ⊎ (queue_status ≡ eoldlibpulp)

  apply_patch-hijacked :
      (p : UlpProcess Registers) (d : Libpulp) (metadata : List ℕ) (disable_seccomp : Bool) (s : S)
      → Zero (apply_patch m p d metadata disable_seccomp s)
      → (p.all_threads_hijacked ≡ true)
        × Zero (
            or_fail m etargethook
              (apply_written m p d disable_seccomp)
              false
              (set_metadata_buffer m d metadata s))
  unfolding apply_patch
  apply_patch-hijacked p d metadata disable_seccomp s (b, s', z) =
      (ground arith, (b, s', ground arith))

  set_metadata_buffer-ok :
      (d : Libpulp) (metadata : List ℕ) (s : S) (status : Status) (a : Bool) (s1 : S)
      → set_metadata_buffer m d metadata s ≡ returns status a s1
      → succeeded status ≡ true
      → (length metadata < metadata_buf_len)
        × ((bytes : List ℕ) × (write_bytes m.tracee m.fuel metadata d.metadata_buffer s
              ≡ done bytes s1))
  unfolding set_metadata_buffer write_buffer succeeded
  set_metadata_buffer-ok d metadata s status a s1 e ok =
      elim (Bool-cases (leb metadata_buf_len (length metadata))) [
        | inl large ↦ absurd (ground arith)
        | inr small ↦ (
          ground arith,
          write_result-ok eunknown (write_bytes m.tracee m.fuel metadata d.metadata_buffer s) status
              a s1 (omega arith) (ground arith) ok,
        )
      ]

  apply_written-Zero :
      (p : UlpProcess Registers) (d : Libpulp) (disable_seccomp : Bool) (s : S)
      → Zero (apply_written m p d disable_seccomp s)
      → ((prepare_seccomp m p.pid disable_seccomp s).0 ≡ false)
        × Zero (
            apply_trigger m
              (thread_of p.threads p.main_thread)
              d
              (prepare_seccomp m p.pid disable_seccomp s).1)
  unfolding apply_written
  apply_written-Zero p d disable_seccomp s (b, s', z) =
      elim (Bool-cases (prepare_seccomp m p.pid disable_seccomp s).0) [
        | inl refused ↦ absurd (ground arith)
        | inr fine ↦ (fine, (b, s', ground arith))
      ]

  apply_trigger-Zero :
      (o : Option (UlpThread Registers)) (d : Libpulp) (s : S)
      → Zero (apply_trigger m o d s)
      → (t : UlpThread Registers) × (c : Registers) × (s1 : S) × (o ≡ some t)
        × (run_and_redirect m.tracer m.runner m.fuel m.rr_timeout t.tid t.context d.trigger s
            ≡ some (0, c, s1))
        × Zero (interpret_queue m d c s1)
  unfolding apply_trigger run_routine
  apply_trigger-Zero none d s (b, s', z) = absurd (cc)
  apply_trigger-Zero (some t) d s zero_ret =
      let (c, s1, ran, next) =
        after_run-Zero (apply_returned m d t.context.return_value)
          (run_and_redirect m.tracer m.runner m.fuel m.rr_timeout t.tid t.context d.trigger s)
          zero_ret in
      (t, c, s1, refl, ran, apply_returned-Zero d t.context.return_value c s1 next)

-- If apply_patch returns 0, whatever the process and the kernel do, then all threads were hijacked,
-- the metadata was shorter than its buffer and its write_bytes to the buffer returned success,
-- seccomp was suspended if that was
-- asked for, run_and_redirect ran the trigger routine in the main thread from the context saved by
-- the hijack, the low 32 bits of the return register were 0, and the queue was interpreted without
-- an error, or libpulp.so has none.
pub apply_patch-Complete :
    {S : Type 0} (m : Machine S) (p : UlpProcess Registers) (d : Libpulp) (metadata : List ℕ)
    (disable_seccomp : Bool) (s : S)
    → Zero (apply_patch m p d metadata disable_seccomp s)
    → Complete m p d metadata disable_seccomp s
unfolding interpret_queue
apply_patch-Complete m p d metadata disable_seccomp s returned =
    let (hijacked, behind_write) = apply_patch-hijacked m p d metadata disable_seccomp s returned in
    let (status, a, s1, wrote, ok, rest) =
      or_fail-Zero m etargethook (apply_written m p d disable_seccomp)
        (set_metadata_buffer m d metadata s) (omega arith) behind_write in
    let (short, (bytes, writes)) = set_metadata_buffer-ok m d metadata s status a s1 wrote ok in
    let (prepared, triggered) = apply_written-Zero m p d disable_seccomp s1 rest in
    let (t, c, s3, main, runs, interpreted) =
      apply_trigger-Zero m (thread_of p.threads p.main_thread) d
        (prepare_seccomp m p.pid disable_seccomp s1).1 triggered in
    let (e, q, s4, interprets, fetched, low) =
      queue_result-Zero m c (interpret_from_process m.tracee m.print m.fuel d.insn_queue s3)
        interpreted in
    record {
      hijacked = hijacked;
      short = short;
      bytes = bytes;
      written = s1;
      writes = writes;
      prepared = prepared;
      thread = t;
      main = main;
      answer = c;
      behind = s3;
      runs = runs;
      returned = low;
      queue_status = e;
      queue = q;
      final = s4;
      interprets = interprets;
      fetched = fetched;
    }
