-- ===== src/Errors.antt =====
-- include/error_common.h, lib/error.c, and `libpulp_strerror` of common/common.c.
pub mod State
pub mod Message
pub mod Codes
