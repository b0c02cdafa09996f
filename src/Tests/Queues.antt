-- ===== src/Tests/Queues.antt =====
-- A queue with two commands, as libpulp.so builds it and as the tool runs it.
use libpulp.Base.{
  ℕ, ◌+◌, ◌≤◌, ◌≡◌, List, [], ◌∷◌, true, false, refl, arith, leb, if◌then◌else◌, ◌-◌, ◌==◌, ◌^◌,
}
use libpulp.Base.Memory.{Memory, load, store, bytes_le}
use libpulp.Errors.Codes.{enone}
use libpulp.Ptrace.Defs.{write_bytes_ptrace}
use libpulp.Ptrace.Write.{Wrote, write_bytes_ptrace-Wrote}
use libpulp.InsnQueue.Defs.{Queue, insn_buffer_max}
use libpulp.InsnQueue.Insert.{
  Globals, align_to, get_writable_area, print_insn_size, insert_print_sized, insert_print,
  write_insn_size, insert_write_sized, insert_write,
}
use libpulp.InsnQueue.Commands.{Command, print, write, insert, size_of, IsCommand, Holds, exec}
use libpulp.InsnQueue.Extend.{insert-Holds}
use libpulp.InsnQueue.Interpret.{interpret, done, Target, fault, interpret_insn}
use libpulp.InsnQueue.Execute.{interpret-exec, interpret_first_failure}
use libpulp.InsnQueue.Remote.{returns, code, interpret_from_process}
use libpulp.InsnQueue.Fetch.{IsImage}
use libpulp.InsnQueue.Protocol.{interpret_from_process-applied, applied, emptied}
use libpulp.Tests.Process.{process, process-Responsive}

abbrev pub hello : Command
hello = print (104 ∷ 105 ∷ [])

abbrev pub poke_three : Command
poke_three = write 1000 (1 ∷ 2 ∷ 3 ∷ [])

abbrev pub empty_queue : Queue
empty_queue = record { version = 1; num_insns = 0; size = 0; buffer = λ a. 0 }

abbrev pub start : Globals
start = record { queue = empty_queue; error_state = 0 }

pub empty-Holds : Holds [] empty_queue
empty-Holds = record {
  valid = record { within = omega arith; counted = omega arith };
  number = refl;
  content = refl;
}

hello-IsCommand : IsCommand hello
hello-IsCommand = ((λ e. omega arith, (λ e. omega arith, tt)), omega arith)

poke_three-IsCommand : IsCommand poke_three
poke_three-IsCommand = (omega arith, omega arith)

insert-Holds_example :
    ((insert hello start).0 ≡ enone)
    × Holds (hello ∷ []) (insert hello start).1.queue
    × ((insert hello start).1.error_state ≡ 0)
insert-Holds_example = insert-Holds [] hello start empty-Holds hello-IsCommand (omega arith)

one_size : (insert hello start).1.queue.size + size_of poke_three ≤ insn_buffer_max
unfolding align_to get_writable_area print_insn_size insert_print_sized insert_print write_insn_size
    insert_write_sized insert_write store bytes_le load
one_size = omega arith

abbrev pub two : Queue
two = (insert poke_three (insert hello start).1).1.queue

pub two-Holds : Holds (hello ∷ poke_three ∷ []) two
two-Holds =
    (insert-Holds (hello ∷ []) poke_three (insert hello start).1 insert-Holds_example.1
      poke_three-IsCommand one_size).1

-- The queue at address 4096 of a process.
abbrev pub image : Memory
image a =
    if leb 4112 a
    then two.buffer (a - 4112)
    else if a == 4096
    then 1
    else if a == 4100
    then 2
    else if a == 4104
    then 32
    else 0

image-IsImage : IsImage two (process.byte image) 4096
unfolding align_to get_writable_area print_insn_size insert_print_sized insert_print write_insn_size
    insert_write_sized insert_write store bytes_le load
image-IsImage = record { version = refl; num_insns = refl; size = refl; content = refl }

abbrev pub silent : List ℕ → Memory → Memory
silent text m = m

interpret_from_process-applied_example :
    (q' : Queue) × (m : Memory) × (interpret_from_process process silent 1 4096 image
      ≡ returns (code enone) q' m)
    × (process.byte m ≡ emptied 4096 (applied (hello ∷ poke_three ∷ []) (process.byte image)))
unfolding insert_write get_writable_area align_to insert_print
interpret_from_process-applied_example =
    interpret_from_process-applied process silent (λ text m. refl) 0 4096 (hello ∷ poke_three ∷ [])
      two image process-Responsive two-Holds image-IsImage (omega arith) (omega arith) (omega arith)
      ((omega arith, (omega arith, (omega arith, tt))), omega arith, tt)

-- A machine whose writes succeed, and one whose writes fail.
abbrev direct : Target Memory
direct = record { print = silent; write_bytes = λ bytes a m. (false, store m a bytes) }

abbrev refusing : Target Memory
refusing = record { print = silent; write_bytes = λ bytes a m. (true, m) }

interpret-exec_example :
    interpret direct two image ≡ done 0 (exec direct (hello ∷ poke_three ∷ []) image)
interpret-exec_example =
    interpret-exec direct (hello ∷ poke_three ∷ []) two image two-Holds (refl, tt)

poke-Holds : Holds (poke_three ∷ []) (insert poke_three start).1.queue
poke-Holds = (insert-Holds [] poke_three start empty-Holds poke_three-IsCommand (omega arith)).1

poke_size : (insert poke_three start).1.queue.size + size_of hello ≤ insn_buffer_max
unfolding get_writable_area align_to insert_write write_insn_size insert_write_sized
poke_size = omega arith

interpret_first_failure_example :
    let q = (insert hello (insert poke_three start).1).1.queue in
    (interpret_insn refusing q.buffer 0 image ≡ done (2 ^ 32 - 1) image)
    × (interpret refusing q image ≡ fault)
interpret_first_failure_example =
    interpret_first_failure refusing 1000 (1 ∷ 2 ∷ 3 ∷ []) hello []
      (insert hello (insert poke_three start).1).1.queue image
      (insert-Holds (poke_three ∷ []) hello (insert poke_three start).1 poke-Holds hello-IsCommand
        poke_size).1
      refl

write_bytes_ptrace_example :
    Wrote process
      (1 ∷ 2 ∷ 3 ∷ [])
      1001
      image
      (write_bytes_ptrace process (1 ∷ 2 ∷ 3 ∷ []) 1001 image)
write_bytes_ptrace_example =
    write_bytes_ptrace-Wrote process (1 ∷ 2 ∷ 3 ∷ []) 1001 image
      (omega arith, (omega arith, (omega arith, tt))) (omega arith)
