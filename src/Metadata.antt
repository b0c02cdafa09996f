-- ===== src/Metadata.antt =====
-- common/common.c: how the metadata of a live patch is read from the buffer.
pub mod Read
pub mod Parse
pub mod Steps
pub mod Encode
pub mod Whole
