-- ===== src/Runtime.antt =====
-- file_manager/src/runtime: channels and signals, over tokio (tokio_rt.rs) and over embassy
-- (embassy_rt.rs). The wrappers of mod.rs pass every call on to one of the two.
pub mod Seen
pub mod Channel
pub mod Signal
pub mod Mutex
