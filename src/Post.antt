-- ===== src/Post.antt =====
-- The post command: the nops at the entries of functions are merged in an ELF file.
pub mod Defs
pub mod Merge
