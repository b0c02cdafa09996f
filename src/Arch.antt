-- ===== src/Arch.antt =====
-- lib/arch/x86_64/patch.c: how the entry of a patched function is rewritten.
pub mod Defs
pub mod Jump
pub mod Redirect
pub mod Patch
pub mod Queued
