-- ===== src/Server/List.antt =====
-- server/src/list.rs: the page that lists the files of a table. The page that `include_str!` puts in
-- and the texts that `{:?}` makes of errors are parameters.
pub mod Body
use esp32_music_server.Prelude.{
  ℕ, suc, Option, none, some, List, [], ◌∷◌, ◌++◌, Bytes, codes, if◌then◌else◌,
}
use esp32_music_server.Run.{Act, Result, good, bad, ok, panic, pure, attempt, ◌>>=◌, ◌>>◌}
use esp32_music_server.Std.Decimal.{to_string}
use esp32_music_server.Sdmmc.{SdError, RawDirectory, VolumeManager, scoped_dir}
use esp32_music_server.FileManager.{FManError, DbError, CardState, db_dir}
use esp32_music_server.Database.{ℤ, pos, negsuc, chars, int, Row, TableId, DatabaseOps, scoped_db}
use esp32_music_server.Server.Range.Request.{invalid_dir}
use esp32_music_server.Server.Writer.{ChunkWriter, lift_vm, lift_db, lift_writer, write_if_active}

pub record ListTexts : Type 0 where
  pub list_page : Bytes
  pub debug_sd : SdError → Bytes
  pub debug_db : DbError → Bytes

abbrev pub int_text : ℤ → Bytes
int_text (pos n) = to_string n
int_text (negsuc n) = codes "-" ++ to_string (suc n)

abbrev pub item : ℤ → Bytes → Bytes → Bytes
item size actual_name name =
    codes "<div><span class=\"size\">"
    ++ (int_text size
        ++ (codes " B</span><a>"
            ++ (actual_name ++ (codes ";" ++ (name ++ codes "</a></div><br>")))))

-- The item of a row; none where `unwrap` of a column, or its index, panics.
abbrev pub row_item : Row → Option Bytes
row_item [] = none
row_item (int a ∷ row) = none
row_item (chars a ∷ []) = none
row_item (chars a ∷ int b ∷ row) = none
row_item (chars a ∷ chars b ∷ []) = none
row_item (chars a ∷ chars b ∷ chars c ∷ row) = none
row_item (chars a ∷ chars b ∷ int c ∷ row) = some (item c a b)

module _ {I S B : Type 0} (vm : VolumeManager S) (ops : DatabaseOps S B) (writer : ChunkWriter I S)
    (texts : ListTexts) where
  abbrev pub send_item : Option Bytes → Act I S (Unit {0})
  send_item none = panic
  send_item (some text) = writer.write_fmt text

  -- `while let Ok(row) = exec.next()`
  unfoldable pub send_rows : List Row → Act I S (Unit {0})
  send_rows [] = pure tt
  send_rows (row ∷ rows) = send_item (row_item row) >> send_rows rows

  abbrev pub send_query : Result DbError (List Row) → Act I S (Unit {0})
  send_query (good rows) = send_rows rows
  send_query (bad e) = writer.write_chunk (codes "<i>table empty</i><br>")

  -- The part behind the table.
  unfoldable pub send_table : B → TableId → Act I S (Unit {0})
  send_table db files_table = do
    writer.write_chunk (codes "<div id=\"list\">")
    rows ← attempt (ops.query db files_table none)
    send_query rows
    writer.write_chunk (codes "</div>")
    writer.write_chunk texts.list_page
    writer.finalize

  abbrev pub send_found : B → Result DbError TableId → Act I S (Unit {0})
  send_found db (good files_table) = send_table db files_table
  send_found db (bad e) = do
    writer.write_chunk (codes "table not found: " ++ texts.debug_db e)
    writer.finalize

  abbrev pub send_database : Bytes → Result DbError B → Act I S (Unit {0})
  send_database dir_name (good db) =
      scoped_db ops db (attempt (ops.get_table db dir_name) >>= send_found db)
  send_database dir_name (bad e) = do
    writer.write_chunk (codes "error: " ++ texts.debug_db e)
    writer.finalize

  abbrev pub send_opened : Bytes → Result SdError RawDirectory → Act I S (Unit {0})
  send_opened dir_name (good dir) = attempt (ops.new_init dir) >>= send_database dir_name
  send_opened dir_name (bad e) = do
    writer.write_chunk (codes "error: " ++ texts.debug_sd e)
    writer.finalize

  -- The body of `HandleListAsync::call`, without the outer `Ok` of each of its ends.
  unfoldable pub send_list : Bytes → RawDirectory → Act I S (Unit {0})
  send_list dir_name root =
      scoped_dir vm root (attempt (vm.open_dir root db_dir) >>= send_opened dir_name)

  -- `HandleListAsync::call`: an error of the connection is its result.
  unfoldable pub list_action : Bytes → RawDirectory → Act FManError S (Result I (Unit {0}))
  list_action dir_name root = attempt (send_list dir_name root)

module _ {I D V W B : Type 0} (vm : VolumeManager V) (ops : DatabaseOps V B)
    (writer : ChunkWriter I W) (texts : ListTexts) where
  -- `ListState::write_chunks`.
  unfoldable pub write_list : Bytes → Act I (CardState D V × W) (Unit {0})
  unfolding list_action
  write_list dir_name =
      let io = lift_writer writer in
      if invalid_dir dir_name
      then (io.write_chunk (codes "invalid dir name") >> io.finalize)
      else write_if_active vm writer
          (list_action (lift_vm vm) (lift_db ops) (lift_writer writer) texts dir_name)
