-- ===== src/Database/Tables.antt =====
-- The tables of the database as maps, and the laws of the calls on them.
use esp32_music_server.Prelude.{
  ◌≡◌, ◌≢◌, ◌&&◌, Option, none, some, List, [], ◌∷◌, Bytes, ◌==◌, same, if◌then◌else◌,
}
use esp32_music_server.Run.{Out, Ensures}
use esp32_music_server.Sdmmc.{RawDirectory, RawFile, RawVolume, VolumeManager, Mode}
use esp32_music_server.FileManager.{duplicate_key}
use esp32_music_server.Database.{Column, chars, Row, TableId, DatabaseOps}

-- The rows of the tables by their keys.
abbrev pub Lookup : Type 0 → Type 0
Lookup V = V → TableId → Bytes → Option Row

abbrev pub found : Option Row → List Row
found none = []
found (some row) = row ∷ []

-- The tables are as they were.
abbrev pub Same : {V : Type 0} → Lookup V → V → V → Type 0
Same look s s' = (t : TableId) (k : Bytes) → look s' t k ≡ look s t k

abbrev pub SameAfter : {E V A : Type 0} → Lookup V → V → Out E V A → Type 0
SameAfter look s r = Ensures (λ _ s'. Same look s s') (λ _ s'. Same look s s') r

-- One row was put under its key.
abbrev pub Put : {V : Type 0} → Lookup V → TableId → Bytes → Row → V → V → Type 0
Put look t k row s s' =
    (t' : TableId) (k' : Bytes)
    → look s' t' k' ≡ (if (t == t') && same k k' then some row else look s t' k')

-- The row under a key is gone.
abbrev pub Removed : {V : Type 0} → Lookup V → TableId → Bytes → V → V → Type 0
Removed look t k s s' =
    (t' : TableId) (k' : Bytes)
    → look s' t' k' ≡ (if (t == t') && same k k' then none else look s t' k')

-- What the code relies on of the database: a table is a map from primary keys to rows, a call that
-- fails changes nothing, and an insert refuses a key that is there and calls no other a duplicate.
-- Opening and closing directories and files, and making directories, does not touch the tables.
pub record DatabaseLaws {V B : Type 0} (vm : VolumeManager V) (ops : DatabaseOps V B) : Type 0 where
  pub look : Lookup V
  pub id_of : Bytes → TableId
  pub open_root_keeps : (vol : RawVolume) (s : V) → SameAfter look s (vm.open_root_dir vol s)
  pub open_dir_keeps : (d : RawDirectory) (n : Bytes) (s : V) → SameAfter look s (vm.open_dir d n s)
  pub close_dir_keeps : (d : RawDirectory) (s : V) → SameAfter look s (vm.close_dir d s)
  pub open_file_keeps :
      (d : RawDirectory) (n : Bytes) (m : Mode) (s : V)
      → SameAfter look s (vm.open_file_in_dir d n m s)
  pub close_file_keeps : (f : RawFile) (s : V) → SameAfter look s (vm.close_file f s)
  pub init_keeps : (d : RawDirectory) (s : V) → SameAfter look s (ops.new_init d s)
  pub drop_keeps : (db : B) (s : V) → Same look s (ops.drop_db db s)
  pub get_table_finds :
      (db : B) (n : Bytes) (s : V)
      → Ensures
          (λ t s'. (t ≡ id_of n) × Same look s s')
          (λ _ s'. Same look s s')
          (ops.get_table db n s)
  pub query_finds :
      (db : B) (t : TableId) (k : Bytes) (s : V)
      → Ensures
          (λ rows s'. (rows ≡ found (look s t k)) × Same look s s')
          (λ _ s'. Same look s s')
          (ops.query db t (some (chars k)) s)
  pub insert_puts :
      (db : B) (t : TableId) (k : Bytes) (row : Row) (s : V)
      → Ensures
          (λ _ s'. (look s t k ≡ none) × Put look t k (chars k ∷ row) s s')
          (λ e s'. (e ≡ duplicate_key → look s t k ≢ none) × Same look s s')
          (ops.insert_to_table db t (chars k ∷ row) s)
  pub update_puts :
      (db : B) (t : TableId) (k : Bytes) (row : Row) (s : V)
      → Ensures
          (λ _ s'. Put look t k (chars k ∷ row) s s')
          (λ _ s'. Same look s s')
          (ops.update_row db t (chars k) (chars k ∷ row) s)
  pub delete_removes :
      (db : B) (t : TableId) (k : Bytes) (s : V)
      → Ensures
          (λ _ s'. Removed look t k s s')
          (λ _ s'. Same look s s')
          (ops.delete_from_table db t (chars k) s)
  pub make_dir_keeps :
      (d : RawDirectory) (n : Bytes) (s : V) → SameAfter look s (vm.make_dir_in_dir d n s)
  pub begin_keeps : (db : B) (n : Bytes) (s : V) → Same look s (ops.new_table_begin db n s)
  pub add_column_keeps : (db : B) (c : Column) (s : V) → SameAfter look s (ops.add_column db c s)
  pub create_table_keeps : (db : B) (s : V) → SameAfter look s (ops.create_table db s)
