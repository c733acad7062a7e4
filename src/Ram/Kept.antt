-- ===== src/Ram/Kept.antt =====
-- The volume manager and the database in memory meet the laws on the creation and the deletion of files.
use esp32_music_server.Prelude.{
  ℕ, ◌||◌, Option, none, some, Option-cases, ◌≡◌, refl, Bool, true, false, not, same_refl, [], ◌∷◌,
  Bytes, ◌⊎◌, inl, inr, Bool-cases, arith,
}
use esp32_music_server.Run.{Ensures, Ensures-weaken, returns, fails}
use esp32_music_server.Sdmmc.{not_found, read_write_create}
use esp32_music_server.Sdmmc.Store.{FullPath}
use esp32_music_server.Database.{Value, chars, int, Row, TableId}
use esp32_music_server.Database.Tables.{Same}
use esp32_music_server.Database.Files.{FileLaws}
use esp32_music_server.Server.Delete.Laws.{DeletionLaws}
use esp32_music_server.Server.Upload.Laws.{CreationLaws}
use esp32_music_server.Ram.{Disk, ram, is_dir_name, is_gone, is_missing, mem}
use esp32_music_server.Ram.Tables.{ram_db, ram_look, ram-DatabaseLaws, inserted}

-- Every directory shows the same names.
abbrev not_gone : Disk → FullPath → Bool
not_gone s [] = false
not_gone s (n ∷ p) = not (is_gone s n)

abbrev not_missing : Disk → FullPath → Bool
not_missing s [] = false
not_missing s (n ∷ p) = not (is_missing n)

pub opened :
    (d : ℕ) (n : Bytes) (s : Disk)
    → (is_dir_name n ≡ true) ⊎ (is_dir_name n ≡ false)
    → Ensures (λ _ _. Unit {0} × Unit {0}) (λ _ _. Unit {0}) (ram.open_dir d n s)
opened d n s (inl known) = rw known (returns (tt, tt))
opened d n s (inr unknown) = rw unknown (fails tt)

abbrev files_that : (Disk → FullPath → Bool) → FileLaws ram ram_db
files_that has = record {
  At = λ s d p. Unit {0};
  has = has;
  open_root_at = λ vol s. returns tt;
  open_dir_at = λ d n p s h. opened d n s (Bool-cases (is_dir_name n));
  init_at = λ raw d p s h. returns tt;
  get_table_at = λ db n d p s h. returns tt;
}

abbrev pub files_not_gone : FileLaws ram ram_db
files_not_gone = files_that not_gone

abbrev pub files_made : FileLaws ram ram_db
files_made = files_that not_missing

removed_name : (a b : Bool) → a ≡ true → not (b || a) ≡ false
removed_name a b h = ground (h, arith)

pub deleted :
    (d : ℕ) (n : Bytes) (p : FullPath) (s : Disk)
    → (is_gone s n ≡ true) ⊎ (is_gone s n ≡ false)
    → Ensures
        (λ _ s'. not_gone s' (n ∷ p) ≡ false)
        (λ e s'. e ≡ not_found → not_gone s' (n ∷ p) ≡ false)
        (ram.delete_file_in_dir d n s)
deleted d n p s (inl absent) = rw absent (fails (λ _. rw absent refl))
deleted d n p s (inr there) =
    rw there (returns (removed_name (mem n (n ∷ s.gone)) (is_missing n) (rw (same_refl n) refl)))

pub kept_rows :
    (d : ℕ) (n : Bytes) (s : Disk)
    → (is_gone s n ≡ true) ⊎ (is_gone s n ≡ false)
    → Ensures (λ _. Same ram_look s) (λ _. Same ram_look s) (ram.delete_file_in_dir d n s)
kept_rows d n s (inl absent) = rw absent (fails (λ t k. refl))
kept_rows d n s (inr there) = rw there (returns (λ t k. refl))

pub closed_none :
    (d : ℕ) (k : FullPath) (s : Disk)
    → not_gone s k ≡ false
    → Ensures (λ _ s'. not_gone s' k ≡ false) (λ _ s'. not_gone s' k ≡ false) (ram.close_dir d s)
closed_none d [] s h = returns refl
closed_none d (n ∷ p) s h = returns h

pub closed_there :
    (d : ℕ) (k : FullPath) (s : Disk)
    → not_missing s k ≡ true
    → Ensures
        (λ _ s'. not_missing s' k ≡ true)
        (λ _ s'. not_missing s' k ≡ true)
        (ram.close_dir d s)
closed_there d [] s h = absurd (ground (h, arith))
closed_there d (n ∷ p) s h = returns h

pub closed_file_there :
    (f : ℕ) (k : FullPath) (s : Disk)
    → not_missing s k ≡ true
    → Ensures (λ _ s'. not_missing s' k ≡ true) (λ _ _. Unit {0}) (ram.close_file f s)
closed_file_there f [] s h = absurd (ground (h, arith))
closed_file_there f (n ∷ p) s h = returns h

pub created :
    (d : ℕ) (n : Bytes) (p : FullPath) (s : Disk)
    → (is_missing n ≡ true) ⊎ (is_missing n ≡ false)
    → Ensures
        (λ _ s'. not_missing s' (n ∷ p) ≡ true)
        (λ _ _. Unit {0})
        (ram.open_file_in_dir d n read_write_create s)
created d n p s (inl absent) = rw absent (fails tt)
created d n p s (inr there) = rw there (returns refl)

pub queried :
    (t : TableId) (k : Option Value) (s : Disk)
    → Ensures (λ _ _. Unit {0}) (λ _ _. Unit {0}) (ram_db.query tt t k s)
queried t none s = returns tt
queried t (some (chars k)) s = returns tt
queried t (some (int n)) s = returns tt

pub put_anyway :
    (t : TableId) (row : Row) (n dir : Bytes) (s : Disk)
    → not_missing s (n ∷ dir ∷ []) ≡ true
    → Ensures
        (λ _ s'. not_missing s' (n ∷ dir ∷ []) ≡ true)
        (λ _ _. Unit {0})
        (ram_db.insert_to_table tt t row s)
put_anyway t [] n dir s h = returns h
put_anyway t (int i ∷ row) n dir s h = returns h
put_anyway t (chars k ∷ row) n dir s h =
    Ensures-weaken (inserted t k row s (Option-cases (ram_look s t k))) (λ _ _ _. h) (λ _ _ _. tt)

abbrev pub ram-CreationLaws : CreationLaws files_made
ram-CreationLaws = record {
  query_at = λ db t k d p s h. queried t k s;
  open_file_creates = λ d n p s h. created d n p s (Bool-cases (is_missing n));
  close_file_leaves = λ f k s h. closed_file_there f k s h;
  close_dir_leaves = λ d k s h. closed_there d k s h;
  insert_leaves = λ db t row n dir s v h. put_anyway t row n dir s h;
  update_leaves = λ db t k row n dir s v h. returns h;
  drop_leaves = λ db n dir s v h. h;
}

abbrev pub ram-DeletionLaws : DeletionLaws ram-DatabaseLaws files_not_gone
ram-DeletionLaws = record {
  delete_file_removes = λ d n p s h. deleted d n p s (Bool-cases (is_gone s n));
  delete_file_keeps = λ d n dir s v h. kept_rows d n s (Bool-cases (is_gone s n));
  delete_row_makes_none = λ db t k n dir s v h. returns h;
  drop_makes_none = λ db n dir s v h. h;
  close_dir_makes_none = λ d k s h. closed_none d k s h;
}
