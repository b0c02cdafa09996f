-- ===== src/Lib.antt =====
-- Verification of libpulp, the user-space live patching library.
--
-- A live patch replaces functions of a running process. The tool of tools/ attaches to the process
-- with ptrace, writes metadata into it and calls an entry point of libpulp.so (lib/ulp.c). That
-- checks the patch, loads its shared object, and diverts each function by new bytes before its entry
-- (lib/arch/x86_64/patch.c). It does not write them itself: memwrite queues an instruction
-- (lib/insn_queue.c), and afterwards the tool reads the queue out of the process
-- (tools/insn_queue.c), interprets it (common/insn_queue.c) and writes the bytes through ptrace
-- (tools/ptrace.c).
--
-- The files and what they model:
--   Base        lists, Boolean tests, memory as a function from addresses to bytes, C integers
--   Bits        bit_and with a mask and bit_or as arithmetic
--   Errors      lib/error.c and include/error_common.h: codes, error state, messages
--   InsnQueue   Defs and Insert: lib/insn_queue.c (insnq_get_writable_area is get_writable_area,
--               insnq_insert_write is insert_write, and so on); Interpret: common/insn_queue.c;
--               Remote: tools/insn_queue.c. Commands is the abstract view, a list of prints and
--               writes. Bounds, Layout, Append, Extend, Execute, Fetch and Protocol hold the proofs.
--               Pages is insn_interpret_write of lib/insn_queue.c, Protect and Inside its proofs
--   Ptrace      tools/ptrace.c over the record Tracee, which states what the kernel's calls do
--   Arch        lib/arch/x86_64/patch.c; Jump is what the processor does at a function's entry, Redirect,
--               Patch and Queued hold the proofs
--   Strings     common/common.c: get_basename and isnumber
--   Metadata    common/common.c: parse_metadata_from_mem, in Read and Parse; Encode and Whole have
--               the format that it reads, and the proofs
--   Patch       lib/ulp.c: Defs has the data, Chain the applied patches, Detours the functions and
--               their detours, Apply and Load the operations and entry points (`__ulp_apply_patch`
--               is ulp_apply_patch). Grounded, Keep, Ready, Accept, Revert, Going, Written, Active, Undo,
--               Taken, References, Diverted and Entry hold the proofs
--   Pcqueue     tools/pcqueue.c: Defs has the queue and the accesses of its two threads, Run their
--               interleavings. Ring, Count, Moves, Fifo and Live hold the proofs
--   Md4         tools/md4.c; Rfc is the description of RFC 1320 on bytes. Buffer, Words, Rounds
--               and Digest hold the proofs
--   Trigger     tools/trigger.c: Defs is trigger_one_process, Many the directories and the
--               processes, Summary what is printed. Rounds, Release, Folders, Exit and Reported
--               hold the proofs
--   Threads     tools/introspection.c: Defs has hijack_threads and restore_threads. Release, Hijack,
--               Stopped and Settles hold the proofs
--   Call        tools/ptrace.c: Retry has ulp_ptrace, Defs has run_and_redirect; tools/introspection.c: Calls has apply_patch,
--               revert_patches_from_lib, patch_applied and read_global_universe. Frame, Run, Apply and
--               Success hold the proofs
--   MsgQueue    lib/msg_queue.c, and tools/messages.c in Remote. Laid is how the messages lie in
--               the buffer; Evict, Wrap, Commit, Push and Print hold the proofs
--   Elf         lib/minielf.c: Defs has Get_Elf_Section and what it calls, Names, Loops and Search
--               the proof against the file's own table; lib/gdb_interface.c: Inject has inject_lp_path,
--               Load the whole of gdb_ulp_apply up to __ulp_apply_patch
--   Post        tools/post.c and tools/arch/x86_64/post-arch.c: Defs merges the nops, Merge has the
--               proof
--   Tests       concrete instances of the theorems
--
-- Bounds and fuel: `int`, `size_t` and pointers wrap at 2 ^ 32 and 2 ^ 64, written out where the
-- source computes with them. The transfer loops of tools/ptrace.c and the loop of
-- revert_all_patches_from_lib run on fuel, since the source has inputs on which they do not end; a
-- transfer that the kernel serves whole needs one round.
--
-- trigger_many_ulps recurses to a bounded depth, since a directory tree of links need not end; the
-- buffer of its paths is taken to be large enough. hijack_threads takes the reads of the task
-- directory as a list: it returns once two in a row agree. A page is of 4096 bytes.
--
-- The loops of msgq_strpush run on fuel of the buffer's size; msgq_push returns for each text that
-- leaves two bytes of the buffer. The wait of run_and_redirect needs a round for each 100
-- microseconds of its timeout.
--
-- Not modelled: the powerpc64le port; warnings, which are printed only; the parts of tools/ that
-- read ELF files and /proc. An assertion of lib/minielf.c that fails is not followed, nor is
-- parse_metadata_from_mem behind a copy that goes past its buffer. What libc, libelf, the dynamic
-- loader and the kernel do is a parameter (World, Tracee, Target, Semaphores, Files, Tracer, Runner,
-- Pages, OpenFile, ElfFile). The Target of Trigger/Defs and the Tracer of Threads/Defs also stand for
-- functions of tools/introspection.c, tools/patches.c and tools/ptrace.c. The notes of a library are
-- lists of notes, already cut by their sizes. The prologue is written into a memory that a call does
-- not change before the tool has run the queue.
pub mod Base
pub mod Bits
pub mod Errors
pub mod InsnQueue
pub mod Ptrace
pub mod Patch
pub mod Strings
pub mod Metadata
pub mod Arch
pub mod Pcqueue
pub mod Md4
pub mod Trigger
pub mod Threads
pub mod Call
pub mod MsgQueue
pub mod Elf
pub mod Post
mod Tests
