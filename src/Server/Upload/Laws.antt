-- ===== src/Server/Upload/Laws.antt =====
-- What the creation of a file relies on.
use esp32_music_server.Prelude.{◌≡◌, false, true, [], ◌∷◌, Option, Bytes}
use esp32_music_server.Run.{Ensures}
use esp32_music_server.Sdmmc.{RawDirectory, RawFile, VolumeManager, read_write_create}
use esp32_music_server.Sdmmc.Store.{FullPath}
use esp32_music_server.Database.{Value, Row, TableId, DatabaseOps}
use esp32_music_server.Database.Files.{FileLaws}
use esp32_music_server.Server.Range.Request.{invalid_dir}

-- A query moves no handle; a file that is opened for creation is there; and neither a call of the
-- database nor closing a handle deletes a file in the directories of the uploads.
pub record CreationLaws {V B : Type 0} {vm : VolumeManager V} {ops : DatabaseOps V B}
    (files : FileLaws vm ops) : Type 0 where
  pub query_at :
      (db : B) (t : TableId) (k : Option Value) (d : RawDirectory) (p : FullPath) (s : V)
      → files.At s d p
      → Ensures (λ _ s'. files.At s' d p) (λ _ _. Unit {0}) (ops.query db t k s)
  pub open_file_creates :
      (d : RawDirectory) (n : Bytes) (p : FullPath) (s : V)
      → files.At s d p
      → Ensures
          (λ _ s'. files.has s' (n ∷ p) ≡ true)
          (λ _ _. Unit {0})
          (vm.open_file_in_dir d n read_write_create s)
  pub close_file_leaves :
      (f : RawFile) (k : FullPath) (s : V)
      → files.has s k ≡ true
      → Ensures (λ _ s'. files.has s' k ≡ true) (λ _ _. Unit {0}) (vm.close_file f s)
  pub close_dir_leaves :
      (d : RawDirectory) (k : FullPath) (s : V)
      → files.has s k ≡ true
      → Ensures (λ _ s'. files.has s' k ≡ true) (λ _ s'. files.has s' k ≡ true) (vm.close_dir d s)
  pub insert_leaves :
      (db : B) (t : TableId) (row : Row) (n dir : Bytes) (s : V)
      → invalid_dir dir ≡ false
      → files.has s (n ∷ dir ∷ []) ≡ true
      → Ensures
          (λ _ s'. files.has s' (n ∷ dir ∷ []) ≡ true)
          (λ _ _. Unit {0})
          (ops.insert_to_table db t row s)
  pub update_leaves :
      (db : B) (t : TableId) (k : Value) (row : Row) (n dir : Bytes) (s : V)
      → invalid_dir dir ≡ false
      → files.has s (n ∷ dir ∷ []) ≡ true
      → Ensures
          (λ _ s'. files.has s' (n ∷ dir ∷ []) ≡ true)
          (λ _ _. Unit {0})
          (ops.update_row db t k row s)
  pub drop_leaves :
      (db : B) (n dir : Bytes) (s : V)
      → invalid_dir dir ≡ false
      → files.has s (n ∷ dir ∷ []) ≡ true
      → files.has (ops.drop_db db s) (n ∷ dir ∷ []) ≡ true
