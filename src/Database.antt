-- ===== src/Database.antt =====
-- The interface of the crate alpa, which is not part of the repository: the calls of `Database`
-- that the code makes. `B` is an open database, whose pages are files behind the volume manager.
pub mod Tables
pub mod Files
use esp32_music_server.Prelude.{ℕ, Bool, Option, List, Bytes}
use esp32_music_server.Run.{Act, ok, then_drop}
use esp32_music_server.Sdmmc.{RawDirectory}
use esp32_music_server.FileManager.{DbError}

-- An i64: `negsuc n` is -(n + 1).
pub data ℤ : Type 0 where
  pos : ℕ → ℤ
  negsuc : ℕ → ℤ

pub data Value : Type 0 where
  chars : Bytes → Value
  int : ℤ → Value

abbrev pub Row : Type 0
Row = List Value

abbrev pub TableId : Type 0
TableId = ℕ

pub data ColumnType : Type 0 where
  chars_type int_type : ColumnType

pub record Column : Type 0 where
  pub name : Bytes
  pub type : ColumnType
  pub is_primary : Bool

pub record DatabaseOps (V B : Type 0) : Type 0 where
  pub new_init : RawDirectory → Act DbError V B
  pub new_table_begin : B → Bytes → V → V
  pub add_column : B → Column → Act DbError V (Unit {0})
  pub create_table : B → Act DbError V TableId
  pub get_table : B → Bytes → Act DbError V TableId
  pub insert_to_table : B → TableId → Row → Act DbError V (Unit {0})
  pub delete_from_table : B → TableId → Value → Act DbError V (Unit {0})
  pub update_row : B → TableId → Value → Row → Act DbError V (Unit {0})
  -- `QueryExecutor::new`, for a key or for the whole table; the rows are those that `next` gives
  -- until it fails.
  pub query : B → TableId → Option Value → Act DbError V (List Row)
  -- The destructor.
  pub drop_db : B → V → V

abbrev pub scoped_db : {E V B A : Type 0} → DatabaseOps V B → B → Act E V A → Act E V A
scoped_db ops db body = then_drop body (λ s. ok tt (ops.drop_db db s))
