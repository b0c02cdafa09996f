-- ===== src/Elf.antt =====
-- lib/minielf.c, which finds a section of a file without allocating memory, and the entry points of
-- lib/gdb_interface.c that load a live patch with it.
pub mod Defs
pub mod Names
pub mod Loops
pub mod Search
pub mod Inject
pub mod Load
