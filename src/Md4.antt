-- ===== src/Md4.antt =====
-- The MD4 digest of tools/md4.c.
pub mod Defs
pub mod Rfc
pub mod Buffer
pub mod Words
pub mod Rounds
pub mod Digest
