-- ===== src/Tests.antt =====
-- Concrete runs of the theorems: a process, a queue and a patch small enough to compute with.
mod Process
mod Queues
mod Patches
mod Messages
mod Calls
mod Files
mod Units
mod Buffers
mod Rings
mod Digests
mod Triggers
mod Threads
mod Pages
mod Nops
