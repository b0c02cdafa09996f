-- ===== src/Trigger.antt =====
-- The trigger command of tools/trigger.c.
pub mod Defs
pub mod Rounds
pub mod Release
pub mod Many
pub mod Folders
pub mod Exit
pub mod Summary
pub mod Reported
