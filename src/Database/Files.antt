-- ===== src/Database/Files.antt =====
-- What the code relies on of the directories and files beside the database, whose own files are in
-- another directory.
use esp32_music_server.Prelude.{Bool, [], ◌∷◌, Bytes}
use esp32_music_server.Run.{Ensures}
use esp32_music_server.Sdmmc.{RawDirectory, RawVolume, VolumeManager}
use esp32_music_server.Sdmmc.Store.{FullPath}
use esp32_music_server.Database.{DatabaseOps}

-- A handle is of the directory that was opened by its name, also behind the calls that open the
-- database and its tables.
pub record FileLaws {V B : Type 0} (vm : VolumeManager V) (ops : DatabaseOps V B) : Type 1 where
  -- Is the handle of the directory at the path?
  pub At : V → RawDirectory → FullPath → Type 0
  -- Is there a file at the path?
  pub has : V → FullPath → Bool
  pub open_root_at :
      (vol : RawVolume) (s : V)
      → Ensures (λ d s'. At s' d []) (λ _ _. Unit {0}) (vm.open_root_dir vol s)
  pub open_dir_at :
      (d : RawDirectory) (n : Bytes) (p : FullPath) (s : V)
      → At s d p
      → Ensures (λ d' s'. At s' d' (n ∷ p) × At s' d p) (λ _ _. Unit {0}) (vm.open_dir d n s)
  pub init_at :
      (raw d : RawDirectory) (p : FullPath) (s : V)
      → At s d p
      → Ensures (λ _ s'. At s' d p) (λ _ _. Unit {0}) (ops.new_init raw s)
  pub get_table_at :
      (db : B) (n : Bytes) (d : RawDirectory) (p : FullPath) (s : V)
      → At s d p
      → Ensures (λ _ s'. At s' d p) (λ _ _. Unit {0}) (ops.get_table db n s)
