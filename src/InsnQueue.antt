-- ===== src/InsnQueue.antt =====
-- include/insn_queue.h: the queue that libpulp.so fills and the `ulp` tool interprets.
-- `Insert` is lib/insn_queue.c; `Interpret` is common/insn_queue.c with tools/insn_queue.c.
pub mod Defs
pub mod Insert
pub mod Interpret
pub mod Bounds
pub mod Commands
pub mod Execute
pub mod Layout
pub mod Append
pub mod Extend
pub mod Remote
pub mod Fetch
pub mod Protocol
pub mod Pages
pub mod Protect
pub mod Inside
