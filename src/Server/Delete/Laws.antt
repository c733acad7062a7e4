-- ===== src/Server/Delete/Laws.antt =====
-- What the deletion of a file relies on.
use esp32_music_server.Prelude.{◌≡◌, false, [], ◌∷◌, Bytes}
use esp32_music_server.Run.{Ensures}
use esp32_music_server.Sdmmc.{not_found, RawDirectory, VolumeManager}
use esp32_music_server.Sdmmc.Store.{FullPath}
use esp32_music_server.Database.{chars, TableId, DatabaseOps}
use esp32_music_server.Database.Tables.{SameAfter, DatabaseLaws}
use esp32_music_server.Database.Files.{FileLaws}
use esp32_music_server.Server.Range.Request.{invalid_dir}

-- A deletion, also one that finds nothing, leaves no file of that name, and in a directory of the
-- uploads it touches no table; neither a call of the database nor closing a directory makes a file in
-- the directories of the uploads.
pub record DeletionLaws {V B : Type 0} {vm : VolumeManager V} {ops : DatabaseOps V B}
    (laws : DatabaseLaws vm ops) (files : FileLaws vm ops) : Type 0 where
  pub delete_file_removes :
      (d : RawDirectory) (n : Bytes) (p : FullPath) (s : V)
      → files.At s d p
      → Ensures
          (λ _ s'. files.has s' (n ∷ p) ≡ false)
          (λ e s'. e ≡ not_found → files.has s' (n ∷ p) ≡ false)
          (vm.delete_file_in_dir d n s)
  pub delete_file_keeps :
      (d : RawDirectory) (n dir : Bytes) (s : V)
      → invalid_dir dir ≡ false
      → files.At s d (dir ∷ [])
      → SameAfter laws.look s (vm.delete_file_in_dir d n s)
  pub delete_row_makes_none :
      (db : B) (t : TableId) (k n dir : Bytes) (s : V)
      → invalid_dir dir ≡ false
      → files.has s (n ∷ dir ∷ []) ≡ false
      → Ensures
          (λ _ s'. files.has s' (n ∷ dir ∷ []) ≡ false)
          (λ _ _. Unit {0})
          (ops.delete_from_table db t (chars k) s)
  pub drop_makes_none :
      (db : B) (n dir : Bytes) (s : V)
      → invalid_dir dir ≡ false
      → files.has s (n ∷ dir ∷ []) ≡ false
      → files.has (ops.drop_db db s) (n ∷ dir ∷ []) ≡ false
  pub close_dir_makes_none :
      (d : RawDirectory) (k : FullPath) (s : V)
      → files.has s k ≡ false
      → Ensures (λ _ s'. files.has s' k ≡ false) (λ _ s'. files.has s' k ≡ false) (vm.close_dir d s)
