-- ===== src/Threads.antt =====
-- Stopping and releasing the threads of a process, in tools/introspection.c.
pub mod Defs
pub mod Release
pub mod Hijack
pub mod Stopped
pub mod Settles
