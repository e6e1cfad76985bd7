-- ===== src/Ccx.antt =====
-- pkg/ccx: the Cloud Control client. Each child is about one part of it.
pub mod Errors
pub mod Strip
pub mod Ignored
pub mod Patch
pub mod Identifier
pub mod Retry
pub mod Cloud
pub mod Read
pub mod Write
pub mod Poll
