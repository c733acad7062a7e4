-- ===== src/Server/Delete.antt =====
-- server/src/delete.rs: deletion of files and of the database.
pub mod Order
pub mod Handles
pub mod Rows
pub mod Laws
use esp32_music_server.Prelude.{Bytes, codes, if◌then◌else◌}
use esp32_music_server.Run.{Act, Result, good, bad, pure, fail, map_err, attempt, ◌>>=◌, ◌>>◌}
use esp32_music_server.Sdmmc.{
  SdError, not_found, other, dir_already_exists, RawDirectory, VolumeManager, scoped_dir,
}
use esp32_music_server.FileManager.{
  FManError, sd_err, db_err, server_err, Fm, db_dir, music_dir, with_root_dir, with_root_dir_async,
}
use esp32_music_server.Database.{chars, DatabaseOps, scoped_db}
use esp32_music_server.Server.Range.Request.{invalid_dir}

-- `Err(NotFound) => ()` of each match on `delete_file_in_dir`.
abbrev pub tolerate : {V : Type 0} → Result SdError (Unit {0}) → Act FManError V (Unit {0})
tolerate (good x) = pure tt
tolerate (bad not_found) = pure tt
tolerate (bad dir_already_exists) = fail (sd_err dir_already_exists)
tolerate (bad (other n)) = fail (sd_err (other n))

module _ {V : Type 0} (vm : VolumeManager V) where
  unfoldable pub delete_file : RawDirectory → Bytes → Act FManError V (Unit {0})
  delete_file d name = attempt (vm.delete_file_in_dir d name) >>= tolerate

  -- The part of `DeleteDbAsync` behind the opening of the database's directory.
  unfoldable pub delete_db_files : Bytes → Bytes → RawDirectory → Act FManError V Bytes
  delete_db_files wal_file db_file d = do
    delete_file d wal_file
    delete_file d db_file
    pure (codes "success")

  -- `DeleteDbAsync`; the two names are alpa's `WAL_FILE_NAME` and `DB_FILE_NAME`.
  unfoldable pub delete_db : Bytes → Bytes → RawDirectory → Act FManError V Bytes
  delete_db wal_file db_file root = scoped_dir vm root (do
    d ← map_err sd_err (vm.open_dir root db_dir)
    scoped_dir vm d (delete_db_files wal_file db_file d))

  -- The action of `handle_fs_music_delete`.
  unfoldable pub fs_music_delete : Bytes → RawDirectory → Act FManError V Bytes
  fs_music_delete name root = scoped_dir vm root (do
    d ← map_err sd_err (vm.open_dir root music_dir)
    scoped_dir vm d (do delete_file d name; pure (codes "success")))

  -- `DeleteAsync`. The database's directory is a raw handle: the database takes it over, and an
  -- error before that leaves it open.
  unfoldable pub delete_music :
      {B : Type 0} → DatabaseOps V B → Bytes → Bytes → RawDirectory → Act FManError V Bytes
  delete_music ops dir_name name root = scoped_dir vm root (
      if invalid_dir dir_name then fail (server_err (codes "invalid dir name")) else (do
        raw ← map_err sd_err (vm.open_dir root db_dir)
        music ← map_err sd_err (vm.open_dir root dir_name)
        scoped_dir vm music (do
          db ← map_err db_err (ops.new_init raw)
          scoped_db ops db (do
            table ← map_err db_err (ops.get_table db dir_name)
            delete_file music name
            map_err db_err (ops.delete_from_table db table (chars name))
            pure (codes "success")))))

module _ {D V : Type 0} (vm : VolumeManager V) where
  unfoldable pub handle_delete_db : Bytes → Bytes → Fm D V Bytes
  handle_delete_db wal_file db_file = with_root_dir_async vm (delete_db vm wal_file db_file)

  unfoldable pub handle_fs_music_delete : Bytes → Fm D V Bytes
  handle_fs_music_delete name = with_root_dir vm (fs_music_delete vm name)

  unfoldable pub handle_delete : {B : Type 0} → DatabaseOps V B → Bytes → Bytes → Fm D V Bytes
  handle_delete ops dir_name name = with_root_dir_async vm (delete_music vm ops dir_name name)
