-- ===== src/Call.antt =====
-- Running a routine of libpulp.so inside of a process: run_and_redirect of tools/ptrace.c, and the
-- functions of tools/introspection.c that call it while the threads are hijacked.
pub mod Defs
pub mod Frame
pub mod Run
pub mod Calls
pub mod Apply
pub mod Success
pub mod Retry
