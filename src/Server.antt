-- ===== src/Server.antt =====
-- The crate `server`: the handlers of the HTTP routes, over the file manager.
pub mod Writer
pub mod Page
pub mod Stream
pub mod Session
pub mod Served
pub mod Locks
pub mod Range
pub mod Chunk
pub mod Delete
pub mod Upload
pub mod Fs
pub mod List
pub mod CatchAll
pub mod Statics
