-- ===== src/Server/Delete/Handles.antt =====
-- The handles of the deletions that do not use the database.
use esp32_music_server.Prelude.{List, ◌∷◌, Bytes}
use esp32_music_server.Run.{
  Result, good, bad, Ensures, returns, fails, Ensures-bind, Ensures-map_err, Ensures-attempt,
}
use esp32_music_server.Sdmmc.{
  SdError, not_found, dir_already_exists, other, RawDirectory, RawFile, RawVolume, VolumeManager,
}
use esp32_music_server.Sdmmc.Handles.{Opens, HandleLaws}
use esp32_music_server.Sdmmc.Rules.{Leaves, rule_open_dir, rule-Keeps, rule_scoped_dir}
use esp32_music_server.FileManager.{sd_err, CardState, active, db_dir, music_dir}
use esp32_music_server.FileManager.OnCard.{
  OnCard, Ensures-with_root_dir, Ensures-with_root_dir_async,
}
use esp32_music_server.Server.Delete.{
  tolerate, delete_file, delete_db, delete_db_files, fs_music_delete, handle_delete_db,
  handle_fs_music_delete,
}

module _ {V : Type 0} {vm : VolumeManager V} (laws : HandleLaws vm) {ds : List RawDirectory}
    {fs : List RawFile} where
  tolerate-handles :
      (r : Result SdError (Unit {0})) {s : V}
      → Opens laws.tables s ds fs
      → Leaves laws.tables ds fs (tolerate r s)
  tolerate-handles (good x) h = returns h
  tolerate-handles (bad not_found) h = returns h
  tolerate-handles (bad dir_already_exists) h = fails h
  tolerate-handles (bad (other n)) h = fails h

  pub delete_file-handles :
      (d : RawDirectory) (name : Bytes) {s : V}
      → Opens laws.tables s ds fs
      → Leaves laws.tables ds fs (delete_file vm d name s)
  unfolding delete_file
  delete_file-handles d name h =
      Ensures-attempt tolerate
        (rule-Keeps laws h (vm.delete_file_in_dir d name) (laws.delete_keeps d name))
        (λ x s₁ h₁. tolerate-handles (good x) h₁) (λ e s₁ h₁. tolerate-handles (bad e) h₁)

module _ {V : Type 0} {vm : VolumeManager V} (laws : HandleLaws vm) {ds : List RawDirectory}
    {fs : List RawFile} where
  delete_db-handles :
      (wal_file db_file : Bytes) (root : RawDirectory) (s : V)
      → Opens laws.tables s (root ∷ ds) fs
      → Leaves laws.tables ds fs (delete_db vm wal_file db_file root s)
  unfolding delete_db delete_db_files
  delete_db-handles wal_file db_file root s h = rule_scoped_dir laws root (
      Ensures-bind _ (Ensures-map_err sd_err (rule_open_dir laws h root db_dir) (λ _ _ g. g))
        (λ d s₁ (h₁, _). rule_scoped_dir laws d (
          Ensures-bind _ (delete_file-handles laws d wal_file h₁) (λ _ s₂ h₂.
            Ensures-bind _ (delete_file-handles laws d db_file h₂) (λ _ s₃ h₃. returns h₃)))))

  fs_music_delete-handles :
      (name : Bytes) (root : RawDirectory) (s : V)
      → Opens laws.tables s (root ∷ ds) fs
      → Leaves laws.tables ds fs (fs_music_delete vm name root s)
  unfolding fs_music_delete
  fs_music_delete-handles name root s h = rule_scoped_dir laws root (
      Ensures-bind _ (Ensures-map_err sd_err (rule_open_dir laws h root music_dir) (λ _ _ g. g))
        (λ d s₁ (h₁, _).
          rule_scoped_dir laws d
            (Ensures-bind _ (delete_file-handles laws d name h₁) (λ _ s₂ h₂. returns h₂))))

-- The card is active on the volume, with the handles open that the given state has.
abbrev pub Untouched :
    {D V : Type 0} {vm : VolumeManager V} → HandleLaws vm → V → RawVolume → CardState D V → Type 0
Untouched laws s vol =
    OnCard vol (λ s'. Opens laws.tables s' (laws.tables.dirs s) (laws.tables.files s))

-- `handle_delete_db`, which deletes the database, and `handle_fs_music_delete`, which deletes a
-- music file without its row, leave exactly the handles open that were open before, on every path,
-- and do not panic. Of `handle_delete` this says nothing.
pub deletions-handles :
    (D : Type 0) {V : Type 0} {vm : VolumeManager V} (laws : HandleLaws vm)
    (wal_file db_file name : Bytes) (s : V) (vol : RawVolume)
    → Ensures
        (λ _. Untouched {D = D} laws s vol)
        (λ _. Untouched laws s vol)
        (handle_delete_db vm wal_file db_file (active s vol))
      × Ensures
          (λ _. Untouched {D = D} laws s vol)
          (λ _. Untouched laws s vol)
          (handle_fs_music_delete vm name (active s vol))
unfolding handle_delete_db handle_fs_music_delete
deletions-handles D {vm} laws wal_file db_file name s vol = (
  Ensures-with_root_dir_async laws (delete_db vm wal_file db_file) s vol (λ _ _ h. h)
      (λ root s' h. delete_db-handles laws wal_file db_file root s' h),
  Ensures-with_root_dir laws (fs_music_delete vm name) s vol (λ _ _ h. h)
      (λ root s' h. fs_music_delete-handles laws name root s' h),
)
