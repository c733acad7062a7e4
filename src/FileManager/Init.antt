-- ===== src/FileManager/Init.antt =====
-- `init_file_system` of file_manager/src/embassy_impl.rs and of file_manager/src/tokio_impl.rs: the
-- directories, the tables and the counters that a start makes. The `InitError` of the source wraps
-- the error that is returned here.
pub mod Rows
pub mod Keeps
pub mod Counters
use esp32_music_server.Prelude.{ℕ, Bool, true, false, List, [], ◌∷◌, Bytes, codes}
use esp32_music_server.Run.{
  Act, Result, good, bad, ok, pure, fail, map_err, attempt, ignore, ◌>>=◌, ◌>>◌,
}
use esp32_music_server.Sdmmc.{
  SdError, not_found, dir_already_exists, other, RawDirectory, RawVolume, VolumeManager, scoped_dir,
}
use esp32_music_server.FileManager.{
  FManError, sd_err, db_err, DbError, duplicate_key, DbError, Fm, db_dir, files_dir, music_dir,
  count_tracker_table, root_dir, with_vol_man,
}
use esp32_music_server.Database.{
  pos, chars, int, Row, TableId, Column, chars_type, int_type, DatabaseOps, scoped_db,
}

-- The tables are named like the directories.
abbrev pub files_table : Bytes
files_table = files_dir

abbrev pub music_table : Bytes
music_table = music_dir

abbrev counter_columns : List Column
counter_columns =
    record { name = codes "name"; type = chars_type; is_primary = true }
    ∷ record { name = codes "count"; type = int_type; is_primary = false }
    ∷ []

abbrev file_columns : List Column
file_columns =
    record { name = codes "path"; type = chars_type; is_primary = true }
    ∷ record { name = codes "name"; type = chars_type; is_primary = false }
    ∷ record { name = codes "size"; type = int_type; is_primary = false }
    ∷ []

-- A counter at 1.
abbrev pub first_row : Bytes → Row
first_row name = chars name ∷ int (pos 1) ∷ []

-- `.or_else(|e| if matches!(e, DirAlreadyExists) { Ok(()) } else { Err(e) })`
abbrev pub allow_existing : {S : Type 0} → Result SdError (Unit {0}) → Act FManError S (Unit {0})
allow_existing (good x) = pure tt
allow_existing (bad not_found) = fail (sd_err not_found)
allow_existing (bad dir_already_exists) = pure tt
allow_existing (bad (other n)) = fail (sd_err (other n))

-- `.or_else(|e| if matches!(e, DuplicateKey) { Ok(a) } else { Err(e) })`
abbrev pub allow_duplicate : {S A : Type 0} → A → Result DbError A → Act FManError S A
allow_duplicate a (good x) = pure x
allow_duplicate a (bad duplicate_key) = pure a
allow_duplicate a (bad (DbError.other n)) = fail (db_err (DbError.other n))

module _ {V B : Type 0} (vm : VolumeManager V) (ops : DatabaseOps V B) where
  abbrev pub add_columns : B → List Column → Act FManError V (Unit {0})
  add_columns db [] = pure tt
  add_columns db (c ∷ cs) = map_err db_err (ops.add_column db c) >> add_columns db cs

  abbrev pub begin : B → Bytes → Act FManError V (Unit {0})
  begin db name s = ok tt (ops.new_table_begin db name s)

  unfoldable pub ensure_dir : RawDirectory → Bytes → Act FManError V (Unit {0})
  ensure_dir root name = attempt (vm.make_dir_in_dir root name) >>= allow_existing

  unfoldable pub ensure_table : B → Bytes → List Column → Act FManError V TableId
  ensure_table db name columns = do
    begin db name
    add_columns db columns
    attempt (ops.create_table db) >>= allow_duplicate 0

  unfoldable pub ensure_row : B → TableId → Row → Act FManError V (Unit {0})
  ensure_row db table row = attempt (ops.insert_to_table db table row) >>= allow_duplicate tt

  -- The part of the start on embassy behind the opening of the database.
  unfoldable pub init_tables : B → Act FManError V (Unit {0})
  init_tables db = do
    ensure_table db count_tracker_table counter_columns
    ensure_table db files_table file_columns
    ensure_table db music_table file_columns
    count_tracker ← map_err db_err (ops.get_table db count_tracker_table)
    ensure_row db count_tracker (first_row files_table)
    ensure_row db count_tracker (first_row music_table)

  unfoldable pub init_root : RawDirectory → Act FManError V (Unit {0})
  init_root root = scoped_dir vm root (do
    ensure_dir root db_dir
    ensure_dir root files_dir
    ensure_dir root music_dir
    raw ← map_err sd_err (vm.open_dir root db_dir)
    db ← map_err db_err (ops.new_init raw)
    scoped_db ops db (init_tables db))

  -- The closure on embassy.
  unfoldable pub init_volume : RawVolume → Act FManError V (Unit {0})
  init_volume vol = do root ← root_dir vm vol; init_root root

  -- On tokio a table or a row that is there is an error; one of a directory is ignored.
  unfoldable pub create_table : B → Bytes → List Column → Act FManError V TableId
  create_table db name columns = do
    begin db name
    add_columns db columns
    map_err db_err (ops.create_table db)

  unfoldable pub create_tables : B → Act FManError V (Unit {0})
  create_tables db = do
    create_table db count_tracker_table counter_columns
    create_table db files_table file_columns
    create_table db music_table file_columns
    count_tracker ← map_err db_err (ops.get_table db count_tracker_table)
    map_err db_err (ops.insert_to_table db count_tracker (first_row files_table))
    map_err db_err (ops.insert_to_table db count_tracker (first_row music_table))

  unfoldable pub create_volume : RawVolume → Act FManError V (Unit {0})
  create_volume vol = do
    root ← root_dir vm vol
    scoped_dir vm root (do
      ignore (vm.make_dir_in_dir root db_dir)
      ignore (vm.make_dir_in_dir root files_dir)
      ignore (vm.make_dir_in_dir root music_dir)
      raw ← map_err sd_err (vm.open_dir root db_dir)
      db ← map_err db_err (ops.new_init raw)
      scoped_db ops db (create_tables db))

module _ {D V B : Type 0} (vm : VolumeManager V) (ops : DatabaseOps V B) where
  unfoldable pub init_embassy : Fm D V (Unit {0})
  unfolding with_vol_man
  init_embassy = with_vol_man vm (init_volume vm ops)

  unfoldable pub init_tokio : Fm D V (Unit {0})
  unfolding with_vol_man
  init_tokio = with_vol_man vm (create_volume vm ops)
