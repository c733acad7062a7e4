-- ===== src/FileManager/Start.antt =====
-- The static file manager of file_manager/src/embassy_impl.rs and tokio_impl.rs, and the loops that
-- start the file system, of actual/src/main.rs and development/src/main.rs. The state is the static:
-- none before it is initialised.
pub mod Retries
pub mod Second
use esp32_music_server.Prelude.{ℕ, zero, suc, Option, none, some, List, [], ◌∷◌}
use esp32_music_server.Run.{
  Out, Act, Result, good, bad, ok, err, panic, hang, pure, attempt, map_state, ◌>>=◌, ◌>>◌,
}
use esp32_music_server.Sdmmc.{VolumeManager}
use esp32_music_server.Database.{DatabaseOps}
use esp32_music_server.FileManager.{FManError, CardState, Device, Fm}
use esp32_music_server.FileManager.Card.{new_file_manager}
use esp32_music_server.FileManager.Init.{init_embassy, init_tokio}

-- embassy_sync's `OnceLock`, which is not part of the repository: `init`, whose result is dropped.
pub record OnceLock (T : Type 0) : Type 0 where
  pub init : T → Option T → Option T

-- The match of both loops: only an error goes on.
abbrev pub unless_done :
    {S : Type 0} → Act ⊥ S (Unit {0}) → Result FManError (Unit {0}) → Act ⊥ S (Unit {0})
unless_done again (good x) = pure tt
unless_done again (bad e) = again

-- What is done with the file manager that was made, if its mount did not panic.
abbrev pub made : {C E T A : Type 0} → Out ⊥ C (Unit {0}) → (C → Act E T A) → Act E T A
made (ok _ c) k = k c
made (err e _) k = absurd e
made (panic _) k = panic
made (hang _) k = hang

-- `OnceLock::set`, and the `expect` of its result.
abbrev pub set_expect : {C E : Type 0} → C → Act E (Option C) (Unit {0})
set_expect c none = ok tt (some c)
set_expect c (some s) = panic (some s)

module _ {D V B : Type 0} (dev : Device D V) (vm : VolumeManager V) (ops : DatabaseOps V B) where
  module _ (once : OnceLock (CardState D V)) where
    -- The file manager is made, and its card mounted, also where it is then dropped.
    unfoldable pub init_file_manager_embassy :
        {E : Type 0} → D → Act E (Option (CardState D V)) (Unit {0})
    init_file_manager_embassy device =
        made (new_file_manager dev vm device) (λ c file_man. ok tt (once.init c file_man))

    -- `get_file_manager().await` waits for the file manager.
    abbrev pub with_file_manager :
        {A : Type 0} → Fm D V A → Act FManError (Option (CardState D V)) A
    with_file_manager m none = hang none
    with_file_manager m (some s) = map_state some (m s)

    unfoldable pub init_file_system_embassy : D → Act FManError (Option (CardState D V)) (Unit {0})
    unfolding init_file_manager_embassy init_embassy
    init_file_system_embassy device =
        init_file_manager_embassy device >> with_file_manager (init_embassy vm ops)

    -- The loop, with the device that each round makes of the same pins. Behind the last one it still
    -- runs.
    unfoldable pub start_embassy : List D → Act ⊥ (Option (CardState D V)) (Unit {0})
    unfolding init_file_system_embassy
    start_embassy [] = hang
    start_embassy (device ∷ devices) =
        attempt (init_file_system_embassy device) >>= unless_done (start_embassy devices)

  -- The file manager is made before `set` is called.
  unfoldable pub init_file_manager_tokio : D → Act ⊥ (Option (CardState D V)) (Unit {0})
  init_file_manager_tokio device = made (new_file_manager dev vm device) set_expect

  -- `expect` of a static that is not.
  unfoldable pub init_file_system_tokio : Act FManError (Option (CardState D V)) (Unit {0})
  init_file_system_tokio none = panic none
  init_file_system_tokio (some s) = map_state some (init_tokio vm ops s)

  -- The loop, for so many rounds, behind which it still runs.
  unfoldable pub start_loop : ℕ → Act ⊥ (Option (CardState D V)) (Unit {0})
  start_loop zero = hang
  start_loop (suc rounds) = attempt init_file_system_tokio >>= unless_done (start_loop rounds)

  unfoldable pub start_tokio : D → ℕ → Act ⊥ (Option (CardState D V)) (Unit {0})
  start_tokio device rounds = init_file_manager_tokio device >> start_loop rounds
