-- ===== src/Server/Range.antt =====
-- server/src/range.rs: streaming of byte ranges.
pub mod Header
pub mod Request
pub mod Serve
