-- ===== src/Server/List/Body.antt =====
-- The bodies of the page of a table, and what the page relies on.
pub mod Rows
pub mod Sends
use esp32_music_server.Prelude.{
  ◌≡◌, refl, sym, ap, ◌∙◌, Option, none, some, List, [], ◌∷◌, ◌++◌, append-nil, append_assoc, Bytes,
  codes, Option-cases, inl, inr, arith,
}
use esp32_music_server.Run.{
  Out, Act, Ensures, returns, fails, err, Ensures-attempt, Ensures-weaken, Ensures-then_drop,
  Ensures-bind, ignore, out_then_drop, ok, Result, good, bad, ◌>>◌,
}
use esp32_music_server.Sdmmc.{SdError, RawDirectory, VolumeManager}
use esp32_music_server.FileManager.{DbError, db_dir}
use esp32_music_server.Database.{Row, TableId, DatabaseOps}
use esp32_music_server.Server.Writer.{ChunkWriter}
use esp32_music_server.Server.Page.{
  PageView, SentPart, SentSome, Quiet, SendsPage, PageLaws, SentPart-refl, SentPart-quiet,
  SentPart-whole, SentPart-trans, SentSome-middle, SentSome-quiet, page_part, page_end,
}
use esp32_music_server.Server.List.{
  ListTexts, row_item, send_item, send_rows, send_query, send_table, send_found, send_database,
  send_opened, send_list,
}

abbrev pub join : Option Bytes → Option Bytes → Option Bytes
join none o = none
join (some a) none = none
join (some a) (some b) = some (a ++ b)

-- The items of the rows, if each has a path, a name and a size.
unfoldable pub items : List Row → Option Bytes
items [] = some []
items (row ∷ rows) = join (row_item row) (items rows)

-- The rows are the first ones of the table.
abbrev pub IsFront : List Row → List Row → Type 0
IsFront rows all = (rest : List Row) × (rows ++ rest ≡ all)

-- What the code relies on: work on directories and on the database sends nothing, and a query of a
-- whole table, where it can be begun, gives its rows in their order, up to the end or to a row that
-- cannot be read.
pub record ListLaws {I S B : Type 0} (vm : VolumeManager S) (ops : DatabaseOps S B)
    (writer : ChunkWriter I S) : Type 0 where
  pub view : PageView S (TableId → List Row)
  pub id_of : Bytes → TableId
  pub page : PageLaws writer view
  pub open_dir_quiet : (d : RawDirectory) (n : Bytes) (s : S) → Quiet view s (vm.open_dir d n s)
  pub close_dir_quiet : (d : RawDirectory) (s : S) → Quiet view s (vm.close_dir d s)
  pub init_quiet : (d : RawDirectory) (s : S) → Quiet view s (ops.new_init d s)
  pub drop_quiet : (db : B) (s : S) → SentPart view s [] (ops.drop_db db s)
  pub get_table_finds :
      (db : B) (n : Bytes) (s : S)
      → Ensures
          (λ t s'. (t ≡ id_of n) × SentPart view s [] s')
          (λ _ s'. SentPart view s [] s')
          (ops.get_table db n s)
  pub scan_finds :
      (db : B) (t : TableId) (s : S)
      → Ensures
          (λ rows s'. IsFront rows (view.kept s t) × SentPart view s [] s')
          (λ _ s'. SentPart view s [] s')
          (ops.query db t none s)

module _ {I S B : Type 0} {vm : VolumeManager S} {ops : DatabaseOps S B} {writer : ChunkWriter I S}
    (laws : ListLaws vm ops writer) (texts : ListTexts) (dir_name : Bytes) (root : RawDirectory)
    (s₀ : S) where
  -- The directory of the database and the database were opened.
  pub record DatabaseOpened (db : B) (s : S) : Type 0 where
    pub dir : RawDirectory
    pub at_dir : S
    pub dir_opened : vm.open_dir root db_dir s₀ ≡ ok dir at_dir
    pub database_opened : ops.new_init dir at_dir ≡ ok db s

  -- The table was found besides.
  pub record TableFound (db : B) (t : TableId) (s : S) : Type 0 where
    pub at_database : S
    pub opened : DatabaseOpened db at_database
    pub table_found : ops.get_table db dir_name at_database ≡ ok t s

  -- The bodies that a list may have, each with the calls that lead to it.
  pub data ListBody (body : Bytes) : Type 0 where
    listed :
        (db : B) (t : TableId) (s₁ s₂ s₃ : S) (rows : List Row) (text : Bytes)
        → TableFound db t s₁
        → writer.write_chunk (codes "<div id=\"list\">") s₁ ≡ ok tt s₂
        → ops.query db t none s₂ ≡ ok rows s₃
        → IsFront rows (laws.view.kept s₀ (laws.id_of dir_name))
        → items rows ≡ some text
        → codes "<div id=\"list\">" ++ (text ++ (codes "</div>" ++ texts.list_page)) ≡ body
        → ListBody body
    no_rows :
        (db : B) (t : TableId) (s₁ s₂ s₃ : S) (e : DbError)
        → TableFound db t s₁
        → writer.write_chunk (codes "<div id=\"list\">") s₁ ≡ ok tt s₂
        → ops.query db t none s₂ ≡ err e s₃
        → codes "<div id=\"list\">"
            ++ (codes "<i>table empty</i><br>" ++ (codes "</div>" ++ texts.list_page))
          ≡ body
        → ListBody body
    cut_off :
        (db : B) (t : TableId) (s₁ s₂ : S) (i : I)
        → TableFound db t s₁
        → writer.write_chunk (codes "<div id=\"list\">") s₁ ≡ err i s₂
        → codes "<div id=\"list\">" ≡ body
        → ListBody body
    no_table :
        (db : B) (s₁ s₂ : S) (e : DbError)
        → DatabaseOpened db s₁
        → ops.get_table db dir_name s₁ ≡ err e s₂
        → codes "table not found: " ++ texts.debug_db e ≡ body
        → ListBody body
    no_database :
        (dir : RawDirectory) (s₁ s₂ : S) (e : DbError)
        → vm.open_dir root db_dir s₀ ≡ ok dir s₁
        → ops.new_init dir s₁ ≡ err e s₂
        → codes "error: " ++ texts.debug_db e ≡ body
        → ListBody body
    no_directory :
        (s₁ : S) (e : SdError)
        → vm.open_dir root db_dir s₀ ≡ err e s₁
        → codes "error: " ++ texts.debug_sd e ≡ body
        → ListBody body
