-- ===== src/Call/Apply.antt =====
-- apply_patch as a whole: the metadata, the routine of libpulp.so, and the queue that it fills.
use libpulp.Base.{
  ℕ, suc, ◌+◌, ◌%◌, ◌^◌, ◌≤◌, ◌<◌, ◌≡◌, ◌⊎◌, ap, ◌∙◌, List, length, some, Bool, true, false, arith,
  not, ◌≢◌, if◌then◌else◌,
}
use libpulp.Base.Memory.{store, IsBytes}
use libpulp.Base.Words.{int_mod}
use libpulp.Errors.Codes.{eagain, enone, eunknown, etargethook}
use libpulp.Ptrace.Defs.{Responsive, write_bytes}
use libpulp.Ptrace.Read.{write_bytes-store}
use libpulp.InsnQueue.Defs.{Queue, insnq_curr_version}
use libpulp.InsnQueue.Commands.{Command, Holds}
use libpulp.InsnQueue.Fetch.{IsImage}
use libpulp.InsnQueue.Protocol.{interpret_from_process-applied, applied, emptied, InRange}
use libpulp.InsnQueue.Remote.{returns, code, interpret_from_process, os_error}
use libpulp.Threads.Defs.{UlpThread, UlpProcess}
use libpulp.Call.Defs.{Registers, run_and_redirect}
use libpulp.Call.Calls.{
  Libpulp, Machine, metadata_buf_len, thread_of, apply_patch, apply_written, apply_trigger,
  apply_returned, interpret_queue, set_metadata_buffer, write_buffer, or_fail, succeeded,
  run_routine, after_run, prepare_seccomp, queue_result, run_result, write_result,
}

-- A run of the routine that stops as it should: it answers with a value that shows that it ran,
-- and leaves the commands cs in the queue.
pub record Served {S : Type 0} (m : Machine S) (t : UlpThread Registers) (routine insn_queue : ℕ)
    (cs : List Command) (s : S) : Type 0 where
  pub answer : Registers
  pub behind : S
  pub runs :
      run_and_redirect m.tracer m.runner m.fuel m.rr_timeout t.tid t.context routine s
      ≡ some (0, answer, behind)
  pub ran :
      (answer.return_value ≡ 0)
      ⊎ (answer.return_value ≡ eagain)
      ⊎ (answer.return_value ≢ t.context.return_value)
  pub queue : Queue
  pub holds : Holds cs queue
  pub image : IsImage queue (m.tracee.byte behind) insn_queue
  pub version : queue.version ≤ insnq_curr_version

module _ {S : Type 0} (m : Machine S) (p : UlpProcess Registers) (d : Libpulp) where
  interpret_queue-applied :
      (fuel : ℕ) (cs : List Command) (q : Queue) (c : Registers) (s : S)
      → m.fuel ≡ suc fuel
      → Responsive m.tracee
      → ((text : List ℕ) (s : S) → m.tracee.byte (m.print text s) ≡ m.tracee.byte s)
      → Holds cs q
      → IsImage q (m.tracee.byte s) d.insn_queue
      → q.version ≤ insnq_curr_version
      → 0 < d.insn_queue
      → d.insn_queue + 16 < 2 ^ 64
      → InRange cs
      → (s' : S) × (interpret_queue m d c s ≡ returns (code (c.return_value % int_mod)) true s')
        × (m.tracee.byte s' ≡ emptied d.insn_queue (applied cs (m.tracee.byte s)))
  unfolding interpret_queue queue_result
  interpret_queue-applied fuel cs q c s e h quiet holds image v pos fits range =
      let (q', s', ran, memory) =
        interpret_from_process-applied m.tracee m.print quiet fuel d.insn_queue cs q s h holds image
          v pos fits range in
      (
        s',
        ap (λ n. queue_result m c (interpret_from_process m.tracee m.print n d.insn_queue s)) e
            ∙ ap (queue_result m c) ran,
        memory,
      )

  -- The write of the metadata, where the kernel writes everything.
  set_metadata_buffer-store :
      (fuel : ℕ) (metadata : List ℕ) (s : S)
      → m.fuel ≡ suc fuel
      → Responsive m.tracee
      → IsBytes metadata
      → length metadata < metadata_buf_len
      → (s1 : S) × (set_metadata_buffer m d metadata s ≡ returns (code enone) true s1)
        × (m.tracee.byte s1 ≡ store (m.tracee.byte s) d.metadata_buffer metadata)
  unfolding set_metadata_buffer write_buffer write_result
  set_metadata_buffer-store fuel metadata s e h bytes short =
      let (s1, written) = h.writes metadata d.metadata_buffer s bytes in
      let (done_eq, memory) =
        write_bytes-store m.tracee fuel metadata d.metadata_buffer s s1 (omega arith) written in
      let same =
        ap (λ n. write_result m eunknown (write_bytes m.tracee n metadata d.metadata_buffer s)) e
        ∙ ap (write_result m eunknown) done_eq in
      (s1, ground arith, memory)

  apply_returned-ran :
      (rax : ℕ) (c : Registers) (s : S)
      → (c.return_value ≡ 0) ⊎ (c.return_value ≡ eagain) ⊎ (c.return_value ≢ rax)
      → apply_returned m d rax c s ≡ interpret_queue m d c s
  unfolding apply_returned
  apply_returned-ran rax c s ran = ground arith

  -- The run of the routine, up to its answer.
  apply_trigger-Served :
      (t : UlpThread Registers) (cs : List Command) (s : S)
      → (v : Served m t d.trigger d.insn_queue cs s)
      → apply_trigger m (some t) d s ≡ interpret_queue m d v.answer v.behind
  unfolding apply_trigger run_routine run_result after_run
  apply_trigger-Served t cs s v =
      ap (λ o. after_run m (apply_returned m d t.context.return_value) false (run_result m o))
        v.runs
      ∙ apply_returned-ran t.context.return_value v.answer v.behind v.ran

  -- The state that the routine starts in: the metadata is written, and seccomp suspended if that
  -- is asked for.
  pub record Prepared (metadata : List ℕ) (disable_seccomp : Bool) (s s' : S) : Type 0 where
    pub written : S
    pub memory : m.tracee.byte written ≡ store (m.tracee.byte s) d.metadata_buffer metadata
    pub ready : prepare_seccomp m p.pid disable_seccomp written ≡ (false, s')

  apply_written-Served :
      (disable_seccomp : Bool) (t : UlpThread Registers) (s1 s2 : S)
      → prepare_seccomp m p.pid disable_seccomp s1 ≡ (false, s2)
      → thread_of p.threads p.main_thread ≡ some t
      → apply_written m p d disable_seccomp s1 ≡ apply_trigger m (some t) d s2
  unfolding apply_written
  apply_written-Served disable_seccomp t s1 s2 ready main =
      let thread = thread_of p.threads p.main_thread in
      ap
        (λ (x : Bool × S). if x.0 then returns os_error false x.1 else apply_trigger m thread d x.1)
        ready
      ∙ ap (λ o. apply_trigger m o d s2) main

  apply_patch-written :
      (metadata : List ℕ) (disable_seccomp : Bool) (s s1 : S)
      → p.all_threads_hijacked ≡ true
      → set_metadata_buffer m d metadata s ≡ returns (code enone) true s1
      → apply_patch m p d metadata disable_seccomp s ≡ apply_written m p d disable_seccomp s1
  unfolding apply_patch or_fail succeeded
  apply_patch-written metadata disable_seccomp s s1 hijacked written =
      let rest = or_fail m etargethook (apply_written m p d disable_seccomp) false in
      ap
        (λ c.
          if not c
          then returns (code eunknown) false s
          else rest (set_metadata_buffer m d metadata s))
        hijacked
      ∙ ap rest written

-- A process whose threads are hijacked, with a kernel that serves every ptrace call and transfers
-- whole ranges, and that suspends seccomp if that is asked for. The metadata is of bytes and shorter
-- than its buffer. The trigger routine, from any state where the metadata stands in the buffer,
-- stops with a return value that shows that it ran, and leaves commands in the queue of libpulp.so,
-- which is not newer than the tool's and stands inside the address space, as do their writes. Then
-- apply_patch writes the metadata, runs the routine from the saved context of the main thread,
-- executes exactly these commands in their order, empties the queue, and returns the low 32 bits of
-- the routine's return value.
pub apply_patch-applied :
    {S : Type 0} (m : Machine S) (p : UlpProcess Registers) (d : Libpulp) (fuel : ℕ)
    (metadata : List ℕ) (disable_seccomp : Bool) (t : UlpThread Registers) (cs : List Command)
    (s : S)
    → m.fuel ≡ suc fuel
    → Responsive m.tracee
    → ((text : List ℕ) (s : S) → m.tracee.byte (m.print text s) ≡ m.tracee.byte s)
    → ((s1 : S) → (s2 : S) × (prepare_seccomp m p.pid disable_seccomp s1 ≡ (false, s2)))
    → p.all_threads_hijacked ≡ true
    → thread_of p.threads p.main_thread ≡ some t
    → IsBytes metadata
    → length metadata < metadata_buf_len
    → 0 < d.insn_queue
    → d.insn_queue + 16 < 2 ^ 64
    → InRange cs
    → ((s2 : S)
        → Prepared m p d metadata disable_seccomp s s2
        → Served m t d.trigger d.insn_queue cs s2)
    → (s2 : S) × (v : Served m t d.trigger d.insn_queue cs s2) × (s' : S) × Prepared m p d metadata
        disable_seccomp s s2
      × (apply_patch m p d metadata disable_seccomp s
          ≡ returns (code (v.answer.return_value % int_mod)) true s')
      × (m.tracee.byte s' ≡ emptied d.insn_queue (applied cs (m.tracee.byte v.behind)))
apply_patch-applied m p d fuel metadata disable_seccomp t cs s e h quiet suspends hijacked main
      bytes short pos fits range serves =
    let (s1, written, memory) = set_metadata_buffer-store m p d fuel metadata s e h bytes short in
    let (s2, ready) = suspends s1 in
    let prepared : Prepared m p d metadata disable_seccomp s s2 = record {
      written = s1;
      memory = memory;
      ready = ready;
    } in
    let v = serves s2 prepared in
    let (s', queue, after) =
      interpret_queue-applied m p d fuel cs v.queue v.answer v.behind e h quiet v.holds v.image
        v.version pos fits range in
    (
      s2,
      v,
      s',
      prepared,
      apply_patch-written m p d metadata disable_seccomp s s1 hijacked written
          ∙ apply_written-Served m p d disable_seccomp t s1 s2 ready main
          ∙ apply_trigger-Served m p d t cs s2 v
          ∙ queue,
      after,
    )
