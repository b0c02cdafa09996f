-- ===== src/Ptrace.antt =====
-- tools/ptrace.c: reading and writing the memory of a stopped process, one long at a time.
pub mod Defs
pub mod Write
pub mod Read
