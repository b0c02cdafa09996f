-- ===== src/MsgQueue.antt =====
-- The circular queue of messages: lib/msg_queue.c, which fills it in the process, and the part of
-- tools/messages.c that prints it.
pub mod Defs
pub mod Laid
pub mod Evict
pub mod Wrap
pub mod Commit
pub mod Push
pub mod Print
pub mod Remote
