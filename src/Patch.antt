-- ===== src/Patch.antt =====
-- lib/ulp.c: the state of libpulp.so, and how live patches are applied and reverted.
pub mod Defs
pub mod Chain
pub mod Detours
pub mod Apply
pub mod Load
pub mod Grounded
pub mod Keep
pub mod Ready
pub mod Accept
pub mod Revert
pub mod Going
pub mod Written
pub mod Active
pub mod Undo
pub mod Taken
pub mod References
pub mod Diverted
pub mod Entry
