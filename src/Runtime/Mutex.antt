-- ===== src/Runtime/Mutex.antt =====
-- `Mutex` of file_manager/src/runtime: the wrappers of mod.rs, tokio_rt.rs and embassy_rt.rs pass
-- every call on to the mutex of tokio or of embassy, which is not part of the repository.
use esp32_music_server.Prelude.{◌≡◌, Bool, true, false}

-- What the code calls of it: `lock` ends where the mutex is free, and then it is not; the guard's
-- destructor frees it.
pub record InnerMutex (M : Type 0) : Type 0 where
  pub is_locked : M → Bool
  pub lock : M → M
  pub drop_guard : M → M

pub record MutexLaws {M : Type 0} (inner : InnerMutex M) : Type 0 where
  pub lock_locks : (m : M) → inner.is_locked (inner.lock m) ≡ true
  pub drop_guard_frees : (m : M) → inner.is_locked (inner.drop_guard m) ≡ false
