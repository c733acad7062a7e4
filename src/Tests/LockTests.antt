-- ===== src/Tests/LockTests.antt =====
-- The locks of the crate server, with two tasks, one of which has asked for a file's page and holds
-- the state of the file manager.
use esp32_music_server.Prelude.{refl, Bool, true, false, [], ◌∷◌, set_at, arith}
use esp32_music_server.Steps.{Reach, here, next, Inevitably}
use esp32_music_server.Runtime.Mutex.{InnerMutex, MutexLaws}
use esp32_music_server.Server.Locks.{
  Lock, card_state, lock, unlock, work, ServerRequest, request_locks, LockTask, Tasks, LockWork,
  locks, LockStep, works, arrives, fs_file_locks, handle_fs_locks,
}
use esp32_music_server.Server.Locks.Done.{IsAtRest, IsDone, Reach-IsDone}

abbrev bit : InnerMutex Bool
bit = record { is_locked = λ b. b; lock = λ b. true; drop_guard = λ b. false }

bit-MutexLaws : MutexLaws bit
bit-MutexLaws = record { lock_locks = λ b. refl; drop_guard_frees = λ b. refl }

abbrev idle : LockTask
idle = record { ops = []; held = [] }

abbrev rest : Tasks Bool
rest = record { mutexes = λ k. false; tasks = λ i. idle }

rest-IsAtRest : IsAtRest bit 2 rest
rest-IsAtRest = record { idle = λ i h. refl; holds_nothing = λ i h. refl; all_free = λ l. refl }

abbrev asked : Tasks Bool
asked = record {
  mutexes = λ k. false;
  tasks = set_at (λ i. idle) 0 (record { ops = handle_fs_locks fs_file_locks; held = [] });
}

abbrev holding : Tasks Bool
holding = record {
  mutexes = set_at (λ k. false) 0 true;
  tasks = set_at asked.tasks 0 (record {
    ops =
        work
        ∷ unlock card_state
        ∷ lock card_state
        ∷ work
        ∷ lock Lock.buf2
        ∷ work
        ∷ unlock Lock.buf2
        ∷ work
        ∷ unlock card_state
        ∷ lock card_state
        ∷ work
        ∷ unlock card_state
        ∷ [];
    held = card_state ∷ [];
  });
}

run : Reach (LockStep bit 2) rest holding
unfolding request_locks
run =
    next (next here (arrives 0 ServerRequest.fs_file (omega arith) refl refl))
      (works (locks 0 card_state _ (omega arith) refl refl refl))

Reach-IsDone_example : Inevitably (LockWork bit 2) (IsDone bit 2) holding
Reach-IsDone_example = Reach-IsDone bit-MutexLaws rest-IsAtRest run
