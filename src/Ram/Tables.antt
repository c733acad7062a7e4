-- ===== src/Ram/Tables.antt =====
-- A database in memory, which meets the laws on tables.
use esp32_music_server.Prelude.{
  ◌≡◌, ◌≢◌, arith, refl, ap, sym, ◌∙◌, Bool, true, false, Bool-cases, ==_iff, same_sound, ◌&&◌,
  Option, none, some, List, [], ◌∷◌, Bytes, codes, same, ◌==◌, if◌then◌else◌, Option-cases, ◌⊎◌,
  inl, inr,
}
use esp32_music_server.Run.{Act, Ensures, returns, fails, ok, err, Ensures-if}
use esp32_music_server.Sdmmc.{not_found}
use esp32_music_server.FileManager.Init.Rows.{and_left, and_right}
use esp32_music_server.FileManager.{DbError, duplicate_key}
use esp32_music_server.Database.{Value, chars, int, Row, TableId, DatabaseOps}
use esp32_music_server.Database.Tables.{found, Same, Put, Removed, DatabaseLaws}
use esp32_music_server.Ram.{Disk, ram, is_dir_name, is_missing, push_dir, push_file}

abbrev has_key : Bytes → Row → Bool
has_key k [] = false
has_key k (chars n ∷ row) = same n k
has_key k (int n ∷ row) = false

abbrev find_row : List (TableId × Row) → TableId → Bytes → Option Row
find_row [] t k = none
find_row ((t', row) ∷ rows) t k = if (t' == t) && has_key k row then some row else find_row rows t k

abbrev pub ram_look : Disk → TableId → Bytes → Option Row
ram_look s t k = find_row s.rows t k

abbrev put_row : TableId → Row → Act DbError Disk (Unit {0})
put_row t row s = ok tt (record s { rows = (t, row) ∷ s.rows })

abbrev insert_new : TableId → Row → Option Row → Act DbError Disk (Unit {0})
insert_new t row none = put_row t row
insert_new t row (some old) = err duplicate_key

abbrev insert_row : TableId → Row → Act DbError Disk (Unit {0})
insert_row t [] s = put_row t [] s
insert_row t (int n ∷ row) s = put_row t (int n ∷ row) s
insert_row t (chars n ∷ row) s = insert_new t (chars n ∷ row) (ram_look s t n) s

abbrev drop_row : TableId → Bytes → List (TableId × Row) → List (TableId × Row)
drop_row t k [] = []
drop_row t k ((t', row) ∷ rows) =
    let rest = drop_row t k rows in if (t' == t) && has_key k row then rest else (t', row) ∷ rest

abbrev delete_row : TableId → Value → Act DbError Disk (Unit {0})
delete_row t (chars k) s = ok tt (record s { rows = drop_row t k s.rows })
delete_row t (int n) s = ok tt s

abbrev pub rows_of : List (TableId × Row) → TableId → List Row
rows_of [] t = []
rows_of ((t', row) ∷ rows) t = let rest = rows_of rows t in if t' == t then row ∷ rest else rest

abbrev query_rows : TableId → Option Value → Act DbError Disk (List Row)
query_rows t (some (chars k)) s = ok (found (ram_look s t k)) s
query_rows t (some (int n)) s = ok [] s
query_rows t none s = ok (rows_of s.rows t) s

abbrev pub table_id : Bytes → TableId
table_id n = if same n (codes "music") then 1 else if same n (codes "files") then 2 else 0

abbrev pub ram_db : DatabaseOps Disk (Unit {0})
ram_db = record {
  new_init = λ d s. ok tt s;
  new_table_begin = λ db n s. s;
  add_column = λ db c s. ok tt s;
  create_table = λ db s. ok 0 s;
  get_table = λ db n s. ok (table_id n) s;
  insert_to_table = λ db t row. insert_row t row;
  delete_from_table = λ db t v. delete_row t v;
  update_row = λ db t v row. put_row t row;
  query = λ db t k. query_rows t k;
  drop_db = λ db s. s;
}

some-none : {row : Row} → some row ≡ none → ⊥
some-none e = ground (e, arith)

pub inserted :
    (t : TableId) (k : Bytes) (row : Row) (s : Disk)
    → (ram_look s t k ≡ none) ⊎ ((old : Row) × (ram_look s t k ≡ some old))
    → Ensures
        (λ _ s'. (ram_look s t k ≡ none) × Put ram_look t k (chars k ∷ row) s s')
        (λ e s'. (e ≡ duplicate_key → ram_look s t k ≢ none) × Same ram_look s s')
        (insert_row t (chars k ∷ row) s)
inserted t k row s (inl absent) = rw absent (returns (refl, λ t' k'. refl))
inserted t k row s (inr (old, there)) = rw there (fails ((λ _ e. some-none e), λ t' k'. refl))

-- The row that is dropped is the one that the key finds.
found_dropped :
    (t₀ t t' : TableId) (k k' : Bytes) (row : Row)
    → (t₀ == t) && has_key k row ≡ true
    → ((t₀ == t') && has_key k' row) ≡ ((t == t') && same k k')
found_dropped t₀ t t' k k' [] h = absurd (ground (arith, h))
found_dropped t₀ t t' k k' (int n ∷ row) h = absurd (ground (arith, h))
found_dropped t₀ t t' k k' (chars n ∷ row) h =
    let here : t₀ ≡ t = (==_iff t₀ t).0 (and_left (t₀ == t) (same n k) h) in
    let there : n ≡ k = same_sound n k (and_right (t₀ == t) (same n k) h) in
    ap (λ x. (x == t') && same n k') here ∙ ap (λ x. (t == t') && same x k') there

find_row-dropped :
    (t : TableId) (k : Bytes) (rows : List (TableId × Row))
    → find_row (drop_row t k rows) t k ≡ none
find_row-dropped t k [] = refl
find_row-dropped t k ((t₀, row) ∷ rows) = elim (Bool-cases ((t₀ == t) && has_key k row)) [
  | inl e ↦ rw e (find_row-dropped t k rows)
  | inr e ↦ rw e (rw e (find_row-dropped t k rows))
]

find_row-others :
    (t t' : TableId) (k k' : Bytes) (rows : List (TableId × Row))
    → (t == t') && same k k' ≡ false
    → find_row (drop_row t k rows) t' k' ≡ find_row rows t' k'
find_row-others t t' k k' [] h = refl
find_row-others t t' k k' ((t₀, row) ∷ rows) h = elim (Bool-cases ((t₀ == t) && has_key k row)) [
  | inl e ↦
      let missed : (t₀ == t') && has_key k' row ≡ false = found_dropped t₀ t t' k k' row e ∙ h in
      rw e (rw missed (find_row-others t t' k k' rows h))
  | inr e ↦ rw e (
      ap (λ o. if (t₀ == t') && has_key k' row then some row else o)
        (find_row-others t t' k k' rows h))
]

pub removed :
    (t : TableId) (k : Bytes) (s : Disk)
    → Removed ram_look t k s (record s { rows = drop_row t k s.rows })
removed t k s t' k' = elim (Bool-cases ((t == t') && same k k')) [
  | inl e ↦
      let here : t ≡ t' = (==_iff t t').0 (and_left (t == t') (same k k') e) in
      let there : k ≡ k' = same_sound k k' (and_right (t == t') (same k k') e) in
      rw e (
        sym (ap (λ x. find_row (drop_row t k s.rows) x k') here)
        ∙ sym (ap (find_row (drop_row t k s.rows) t) there)
        ∙ find_row-dropped t k s.rows)
  | inr e ↦ rw e (find_row-others t t' k k' s.rows e)
]

abbrev pub ram-DatabaseLaws : DatabaseLaws ram ram_db
ram-DatabaseLaws = record {
  look = ram_look;
  id_of = table_id;
  open_root_keeps = λ vol s. returns (λ t k. refl);
  open_dir_keeps = λ d n s.
      Ensures-if (is_dir_name n) push_dir (err not_found) (returns (λ t k. refl))
        (fails (λ t k. refl));
  close_dir_keeps = λ d s. returns (λ t k. refl);
  open_file_keeps = λ d n m s.
      Ensures-if (is_missing n) (err not_found) push_file (fails (λ t k. refl))
        (returns (λ t k. refl));
  close_file_keeps = λ f s. returns (λ t k. refl);
  init_keeps = λ d s. returns (λ t k. refl);
  drop_keeps = λ db s t k. refl;
  get_table_finds = λ db n s. returns (refl, λ t k. refl);
  query_finds = λ db t k s. returns (refl, λ t k. refl);
  insert_puts = λ db t k row s. inserted t k row s (Option-cases (ram_look s t k));
  update_puts = λ db t k row s. returns (λ t' k'. refl);
  delete_removes = λ db t k s. returns (removed t k s);
  make_dir_keeps = λ d n s. returns (λ t k. refl);
  begin_keeps = λ db n s t k. refl;
  add_column_keeps = λ db c s. returns (λ t k. refl);
  create_table_keeps = λ db s. returns (λ t k. refl);
}
