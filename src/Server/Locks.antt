-- ===== src/Server/Locks.antt =====
-- The locks that the handlers of the crate server take: the state of the file manager, and the two
-- buffers of server/src/statics.rs. Every handler is the list of what it does to them; the tasks that
-- serve HTTP (actual/src/http_task.rs has two, development/src/main.rs one for each connection)
-- interleave.
pub mod Order
pub mod Guarded
pub mod Progress
pub mod Done
use esp32_music_server.Prelude.{
  ℕ, ◌+◌, ◌<◌, ◌≡◌, Bool, true, false, ◌&&◌, List, [], ◌∷◌, ◌++◌, ltb, ◌==◌, set_at, if◌then◌else◌,
}
use esp32_music_server.Runtime.Mutex.{InnerMutex}

-- `FileManager::state`, `BUF` and `BUF2`.
pub data Lock : Type 0 where
  card_state buf buf2 : Lock

abbrev pub index : Lock → ℕ
index card_state = 0
index buf = 1
index buf2 = 2

-- `lock().await`, the end of a guard's scope, and anything in between.
pub data LockOp : Type 0 where
  lock unlock : Lock → LockOp
  work : LockOp

abbrev pub is_card_active_locks : List LockOp
is_card_active_locks = lock card_state ∷ unlock card_state ∷ []

-- `with_root_dir` and `with_root_dir_async` hold the state for as long as their action runs, as does
-- `resolve_path_iter`.
abbrev pub with_root_dir_locks : List LockOp → List LockOp
with_root_dir_locks action = lock card_state ∷ action ++ unlock card_state ∷ []

abbrev pub close_file_type_locks : List LockOp
close_file_type_locks = lock card_state ∷ work ∷ unlock card_state ∷ []

-- `get_buf` inside an action, until the action ends.
abbrev pub with_buf_locks : List LockOp
with_buf_locks = lock buf ∷ work ∷ unlock buf ∷ []

abbrev pub with_buf2_locks : List LockOp
with_buf2_locks = lock buf2 ∷ work ∷ unlock buf2 ∷ []

-- `write_chunks` of a range response, and the whole handler.
abbrev pub write_range_locks : List LockOp
write_range_locks = is_card_active_locks ++ with_root_dir_locks (work ∷ with_buf_locks)

abbrev pub handle_range_locks : List LockOp
handle_range_locks = with_root_dir_locks (work ∷ []) ++ write_range_locks

abbrev pub receive_chunks_locks : List LockOp
receive_chunks_locks = with_root_dir_locks with_buf_locks

abbrev pub write_chunk_locks : List LockOp
write_chunk_locks = is_card_active_locks ++ with_root_dir_locks (work ∷ with_buf_locks)

abbrev pub handle_get_chunk_locks : List LockOp
handle_get_chunk_locks = with_root_dir_locks (work ∷ []) ++ write_chunk_locks

abbrev pub handle_list_locks : List LockOp
handle_list_locks = is_card_active_locks ++ with_root_dir_locks (work ∷ [])

-- The arms of `write_chunks` of server/src/fs.rs, and the whole handler.
abbrev pub fs_dir_locks : List LockOp
fs_dir_locks = with_root_dir_locks (work ∷ []) ++ close_file_type_locks

abbrev pub fs_file_locks : List LockOp
fs_file_locks = with_root_dir_locks (work ∷ with_buf2_locks ++ work ∷ []) ++ close_file_type_locks

abbrev pub handle_fs_locks : List LockOp → List LockOp
handle_fs_locks arm = with_root_dir_locks (work ∷ []) ++ arm

-- The requests that `router` of actual/src/router.rs and development/src/main.rs routes to the crate,
-- and the one for a chunk, whose route is commented out.
pub data ServerRequest : Type 0 where
  delete list stream upload_new upload_chunk upload_end delete_db fs_music_delete : ServerRequest
  fs_dir fs_file get_chunk : ServerRequest

unfoldable pub request_locks : ServerRequest → List LockOp
request_locks delete = with_root_dir_locks (work ∷ [])
request_locks list = handle_list_locks
request_locks stream = handle_range_locks
request_locks upload_new = with_root_dir_locks (work ∷ [])
request_locks upload_chunk = receive_chunks_locks
request_locks upload_end = with_root_dir_locks (work ∷ [])
request_locks delete_db = with_root_dir_locks (work ∷ [])
request_locks fs_music_delete = with_root_dir_locks (work ∷ [])
request_locks fs_dir = handle_fs_locks fs_dir_locks
request_locks fs_file = handle_fs_locks fs_file_locks
request_locks get_chunk = handle_get_chunk_locks

-- A task that serves a request: what it has left to do, and the guards that it holds, the latest
-- first.
pub record LockTask : Type 0 where
  pub ops : List LockOp
  pub held : List Lock

pub record Tasks (M : Type 0) : Type 0 where
  pub mutexes : ℕ → M
  pub tasks : ℕ → LockTask

-- How many guards of the lock are among these?
abbrev pub guards : Lock → List Lock → ℕ
guards l [] = 0
guards l (h ∷ hs) = if index h == index l then 1 + guards l hs else guards l hs

module _ {M : Type 0} (inner : InnerMutex M) where
  -- The guards of a task that is stopped are dropped.
  abbrev pub dropped : List Lock → (ℕ → M) → ℕ → M
  dropped [] mutexes = mutexes
  dropped (h ∷ hs) mutexes =
      dropped hs (set_at mutexes (index h) (inner.drop_guard (mutexes (index h))))

module _ {M : Type 0} (inner : InnerMutex M) (n : ℕ) where
  -- A step of the work in progress, by one of the `n` tasks. A lock is taken where it is free.
  pub data LockWork (s t : Tasks M) : Type 0 where
    locks :
        (i : ℕ) (l : Lock) (ops : List LockOp)
        → i < n
        → (s.tasks i).ops ≡ lock l ∷ ops
        → inner.is_locked (s.mutexes (index l)) ≡ false
        → t ≡ record {
          mutexes = set_at s.mutexes (index l) (inner.lock (s.mutexes (index l)));
          tasks = set_at s.tasks i (record { ops = ops; held = l ∷ (s.tasks i).held });
        }
        → LockWork s t
    unlocks :
        (i : ℕ) (l : Lock) (ops : List LockOp) (held : List Lock)
        → i < n
        → (s.tasks i).ops ≡ unlock l ∷ ops
        → (s.tasks i).held ≡ l ∷ held
        → t ≡ record {
          mutexes = set_at s.mutexes (index l) (inner.drop_guard (s.mutexes (index l)));
          tasks = set_at s.tasks i (record { ops = ops; held = held });
        }
        → LockWork s t
    runs :
        (i : ℕ) (ops : List LockOp)
        → i < n
        → (s.tasks i).ops ≡ work ∷ ops
        → t ≡ record s { tasks = set_at s.tasks i (record { ops = ops; held = (s.tasks i).held }) }
        → LockWork s t

  -- A step of the whole system: a task that is done is given a request; one leaves its handler early,
  -- by an error or by the timeout around `serve`, which drops what it holds.
  pub data LockStep (s t : Tasks M) : Type 0 where
    works : LockWork s t → LockStep s t
    arrives :
        (i : ℕ) (r : ServerRequest)
        → i < n
        → (s.tasks i).ops ≡ []
        → t ≡ record s {
          tasks = set_at s.tasks i (record { ops = request_locks r; held = (s.tasks i).held });
        }
        → LockStep s t
    leaves :
        (i : ℕ)
        → i < n
        → t ≡ record {
          mutexes = dropped inner (s.tasks i).held s.mutexes;
          tasks = set_at s.tasks i (record { ops = []; held = [] });
        }
        → LockStep s t
