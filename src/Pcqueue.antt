-- ===== src/Pcqueue.antt =====
-- The producer and consumer queue of tools/pcqueue.c and tools/pcqueue.h.
pub mod Defs
pub mod Run
pub mod Ring
pub mod Count
pub mod Moves
pub mod Fifo
pub mod Live
