-- ===== src/Lib.antt =====
-- A model of the music server: a device (crate `actual`), or a development machine (crate
-- `development`), that serves the files of an SD card over HTTP. The crate `file_manager` owns the
-- card and the crate `server` has the handlers of the routes; these two are modelled, with the stored
-- configuration of the device, its event handler and its own routes.
--
-- How the parts interact. `FileManager` keeps one state, the card's, behind a lock: no card, a mounted
-- card with its volume manager, or `Processing` in between. Every method takes the lock for its whole
-- length, so that it is one action on that state here; Server/Locks has the locks themselves. A handler gives `with_root_dir` or
-- `with_root_dir_async` an action that works on the volume manager, from a handle of the root on; the
-- handlers that stream have the connection beside it. The database (crate alpa) lives in files behind
-- the same volume manager. The device's own routes send events over a channel to one task, which
-- handles them and answers through two signals; the tasks that serve HTTP interleave with it.
--
-- How code becomes definitions. `Run` has the runs: an action takes a state and returns, fails with an
-- error, panics, or waits for ever. `?` is `>>=`, a `match` on a call is `attempt`, `let _ =` is
-- `ignore`, and a value with a destructor is `then_drop`. A panic runs no destructors, as the device
-- aborts on it. `Ensures P Q r` says that the run `r` neither panics nor waits, and what holds where it
-- returns and where it fails; `Settles` is the same for a run that may panic. Texts are lists of code points, which are bytes where the code needs
-- bytes.
--
-- Files:
-- - Prelude, Steps, Std: shared names, lists over the native numbers and families of tasks, runs of a
--   step relation, and what the code uses of Rust's library: arithmetic in `usize`, decimals, pieces
--   of texts, UTF-8.
-- - Sdmmc: the interface of embedded_sdmmc, a parameter. Sdmmc/Handles, Sdmmc/Contents: the laws that
--   the theorems assume of it, on open handles and on the bytes of open files; Sdmmc/Store: those on
--   files and directories by their names; Sdmmc/Rules: what follows.
-- - Database, Database/Tables: the interface of alpa, a parameter, and its laws: tables are maps.
--   Database/Files: what stands beside the database, in other directories.
-- - Runtime: file_manager/src/runtime/tokio_rt.rs, embassy_rt.rs and mod.rs: Channel, Signal and
--   Mutex.
-- - FileManager: file_manager/src/lib.rs and consts.rs. Card: `FileManagerState::new`, `try_mount`,
--   `handle_ejection`; Resolve, Paths: `resolve_path_iter`; Init: `init_file_system` of
--   file_manager/src/embassy_impl.rs and tokio_impl.rs; Start: the static file manager and the loops
--   that start it, of actual/src/main.rs and development/src/main.rs.
-- - Server/Range: server/src/range.rs. Header is the extractor of the Range header, Request is
--   `handle_range_request`, Serve is `write_chunks`.
-- - Server/Chunk: server/src/chunk.rs. Receive is `receive_chunks`, Send is `handle_get_chunk`.
-- - Server/Upload: server/src/upload.rs: `new`, `MusicReceiver`, `end`.
-- - Server/Delete: server/src/delete.rs. Server/Fs: server/src/fs.rs. Server/List: server/src/list.rs.
--   Server/CatchAll: server/src/lib.rs.
-- - Server/Writer, Server/Stream, Server/Session, Server/Page: picoserve's `ChunkWriter`, a parameter,
--   the sending loop that range.rs and chunk.rs share, and statements about a response. Server/Served:
--   the upload of a file and a request for it, one behind the other. Server/Statics:
--   server/src/statics.rs. Server/Locks: the state of the file manager and the two buffers as mutexes,
--   what each handler does to them, and the tasks that serve HTTP as a step relation.
-- - Routing: the tables of routes, of actual/src/router.rs and development/src/main.rs.
-- - Device/StaConfig: actual/src/sta_config.rs. Device/Wifi, Device/Events: actual/src/event_handler.rs
--   and types.rs. Device/Start: the station's configuration in actual/src/main.rs. Device/Routes:
--   actual/src/router.rs. Device/System: these together with actual/src/http_task.rs, as a step
--   relation on the channel, the signals and the tasks; its children hold its bounds, what an event
--   serves, the invariant of one task, and the race of two.
-- - Ram: volume managers, a database and a connection in memory, which meet the laws. Tests: runs at
--   concrete inputs, and the theorems applied there.
--
-- Loops. Loops over a list (the names of a path, the reads of a body, the entries of a directory) are
-- recursion on it. The sending loop takes fuel: one more than the bytes that are left, as each round
-- sends one at least. The loop that shows a file takes fuel too: more than the bytes that are left. A
-- run without fuel waits for ever, which the theorems exclude. `usize` has a modulus, a parameter; the
-- sizes of files are u32, as in embedded_sdmmc. The loop over the segments of a path takes fuel: more
-- than the characters of the path. The loops that start the file system take the number of their
-- rounds; one that has not ended behind them still runs, which is stated as such. A device at work has
-- no fuel: its runs are sequences of steps of any length.
--
-- Not modelled: the rest of actual/src/main.rs and dhcp.rs, which set hardware up, the sockets of
-- actual/src/http_task.rs, the allocators, the build script, the examples, and the HTML pages. A buffer
-- is an argument of the action that locks it, with whatever was left in it. The time stamps of files
-- and the printed messages have no state.
pub mod Prelude
pub mod Run
pub mod Steps
pub mod Std
pub mod Sdmmc
pub mod Runtime
pub mod FileManager
pub mod Database
pub mod Server
pub mod Routing
pub mod Device
pub mod Ram
pub mod Tests
