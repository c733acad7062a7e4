-- ===== src/Server/Upload.antt =====
-- server/src/upload.rs: `new`, `MusicReceiver` and `end`.
pub mod Tables
pub mod Registers
pub mod Laws
pub mod Handles
use esp32_music_server.Prelude.{
  ℕ, suc, ◌+◌, ◌-◌, Option, none, some, List, [], ◌∷◌, ◌++◌, Bytes, codes, ltb, leb, if◌then◌else◌,
}
use esp32_music_server.Run.{
  Act, Result, good, bad, panic, ok, pure, fail, map_err, attempt, ◌>>=◌, ◌>>◌,
}
use esp32_music_server.Std.Decimal.{to_string}
use esp32_music_server.Sdmmc.{
  RawDirectory, VolumeManager, read_write_create, read_write_append, scoped_dir, scoped_file,
}
use esp32_music_server.FileManager.{
  FManError, server_err, DbError, Fm, db_dir, count_tracker_table, with_root_dir,
}
use esp32_music_server.Database.{
  ℤ, pos, negsuc, Value, chars, int, Row, TableId, DatabaseOps, scoped_db,
}
use esp32_music_server.Server.Range.Request.{invalid_dir}
use esp32_music_server.Server.Chunk.Receive.{ChunkQuery, BodyRead, ChunkReply, receive_chunks}

pub record NewQuery : Type 0 where
  pub name : Bytes
  pub ext : Bytes
  pub size : ℕ

-- `.map_err(|_| text)`
abbrev pub or_text : {E S A : Type 0} → Bytes → Act E S A → Act FManError S A
or_text text = map_err (λ _. server_err text)

-- `as i64` of a 64-bit usize.
abbrev pub as_i64 : ℕ → ℤ
as_i64 n = if ltb n 9223372036854775808 then pos n else negsuc (18446744073709551615 - n)

-- `format!("{}.{}", cur_file_id, query.ext)`
abbrev pub actual_name : ℕ → Bytes → Bytes
actual_name id ext = to_string id ++ (codes "." ++ ext)

abbrev pub file_row : ℕ → NewQuery → Row
file_row id query =
    chars (actual_name id query.ext) ∷ chars query.name ∷ int (as_i64 query.size) ∷ []

abbrev pub counter_row : Bytes → ℕ → Row
counter_row dir_name id = chars dir_name ∷ int (pos id) ∷ []

-- `row[1].to_int().unwrap()`
abbrev pub second_int : {E S : Type 0} → Row → Act E S ℤ
second_int [] = panic
second_int (a ∷ []) = panic
second_int (a ∷ chars b ∷ row) = panic
second_int (a ∷ int b ∷ row) = pure b

-- The first row that the query gives.
abbrev pub first_id : {S : Type 0} → Result DbError (List Row) → Act FManError S ℤ
first_id (bad e) = fail (server_err (codes "table empty"))
first_id (good []) = fail (server_err (codes "bad init"))
first_id (good (row ∷ rows)) = second_int row

abbrev pub id_limit : ℕ
id_limit = 99999999

-- The test on the number, and the number where it passes.
abbrev pub check_id : {S : Type 0} → ℤ → Act FManError S ℕ
check_id (negsuc n) = fail (server_err (codes "id limit reached"))
check_id (pos n) = if leb id_limit n then fail (server_err (codes "id limit reached")) else pure n

module _ {V B : Type 0} (vm : VolumeManager V) (ops : DatabaseOps V B) where
  -- The two writes to the database, and the reply.
  unfoldable pub register : B → TableId → TableId → Bytes → NewQuery → ℕ → Act FManError V Bytes
  register db count_tracker music dir_name query id = do
    or_text (codes "unable to insert to table") (ops.insert_to_table db music (file_row id query))
    or_text (codes "unable to update count_tracker_table to table")
        (ops.update_row db count_tracker (chars dir_name) (counter_row dir_name (id + 1)))
    pure (codes "success: " ++ actual_name id query.ext)

  -- The part behind the number of the file.
  unfoldable pub create :
      B → TableId → TableId → Bytes → NewQuery → RawDirectory → ℕ → Act FManError V Bytes
  create db count_tracker music dir_name query root id = do
    music_dir ← or_text (codes "unable to open dir") (vm.open_dir root dir_name)
    scoped_dir vm music_dir (do
      f ←
          or_text (codes "unable to create new file")
            (vm.open_file_in_dir music_dir (actual_name id query.ext) read_write_create)
      or_text (codes "unable to close new file") (vm.close_file f)
      register db count_tracker music dir_name query id)

  -- The part behind the opening of the database.
  unfoldable pub new_entry : B → Bytes → NewQuery → RawDirectory → Act FManError V Bytes
  new_entry db dir_name query root = do
    count_tracker ←
        or_text (codes "unable to get count_tracker table") (ops.get_table db count_tracker_table)
    music ← or_text (codes "unable to get music table") (ops.get_table db dir_name)
    rows ← attempt (ops.query db count_tracker (some (chars dir_name)))
    cur_file_id ← first_id rows
    id ← check_id cur_file_id
    create db count_tracker music dir_name query root id

  -- The closure of `new`. The database's directory is a raw handle, which the database takes over.
  unfoldable pub new_action : Bytes → NewQuery → RawDirectory → Act FManError V Bytes
  new_action dir_name query root = scoped_dir vm root (
      if invalid_dir dir_name then fail (server_err (codes "invalid dir name")) else (do
        raw ← or_text (codes "unable to open db dir") (vm.open_dir root db_dir)
        db ← or_text (codes "db init error") (ops.new_init raw)
        scoped_db ops db (new_entry db dir_name query root)))

  unfoldable pub new : {D : Type 0} → Bytes → NewQuery → Fm D V Bytes
  unfolding with_root_dir
  new dir_name query = with_root_dir vm (new_action dir_name query)

module _ {V : Type 0} (vm : VolumeManager V) where
  -- The closure of `end`: the file is opened, and closed where `_` drops it.
  unfoldable pub end_action : Bytes → Bytes → RawDirectory → Act FManError V Bytes
  end_action dir_name id root = scoped_dir vm root (
      if invalid_dir dir_name then fail (server_err (codes "invalid dir name")) else (do
        music ← or_text (codes "unable to open dir") (vm.open_dir root dir_name)
        scoped_dir vm music (do
          f ← or_text (codes "file not found") (vm.open_file_in_dir music id read_write_append)
          scoped_file vm f (pure (codes "success")))))

  unfoldable pub end : {D : Type 0} → Bytes → Bytes → Fm D V Bytes
  unfolding with_root_dir
  end dir_name id = with_root_dir vm (end_action dir_name id)

-- `MusicReceiver::from_request`: the last segment of the path names the directory.
pub data Received : Type 0 where
  path_not_mentioned invalid_dir_name : Received
  response : ChunkReply → Received

abbrev last : List Bytes → Option Bytes
last [] = none
last (x ∷ []) = some x
last (x ∷ y ∷ xs) = last (y ∷ xs)

module _ {D V : Type 0} (vm : VolumeManager V) (modulus : ℕ) (query : Option ChunkQuery)
    (body : List BodyRead) where
  abbrev receive_into : Option Bytes → Fm D V Received
  receive_into none = pure path_not_mentioned
  receive_into (some dir) =
      if invalid_dir dir
      then pure invalid_dir_name
      else (receive_chunks vm modulus query body dir >>= λ reply. pure (response reply))

  unfoldable pub from_request : List Bytes → Fm D V Received
  from_request segments = receive_into (last segments)
