-- ===== src/FileManager/Init/Keeps.antt =====
-- The steps of a start that leave the tables' rows as they were.
use esp32_music_server.Prelude.{◌∙◌, List, [], ◌∷◌, Bytes}
use esp32_music_server.Run.{
  Out, Ensures, returns, fails, Result, good, bad, Ensures-bind, Ensures-map_err, Ensures-attempt,
  Ensures-weaken, out_map_err,
}
use esp32_music_server.Sdmmc.{
  SdError, not_found, dir_already_exists, other, RawDirectory, VolumeManager,
}
use esp32_music_server.FileManager.{db_err, DbError, duplicate_key}
use esp32_music_server.FileManager.Init.{
  allow_existing, allow_duplicate, add_columns, ensure_dir, ensure_table,
}
use esp32_music_server.Database.{Column, DatabaseOps}
use esp32_music_server.Database.Tables.{Lookup, Same, SameAfter, DatabaseLaws}

module _ {V : Type 0} (look : Lookup V) where
  pub Same-trans : {a b c : V} → Same look b c → Same look a b → Same look a c
  Same-trans g h = λ t k. g t k ∙ h t k

module _ {V B : Type 0} {vm : VolumeManager V} {ops : DatabaseOps V B}
    (laws : DatabaseLaws vm ops) where
  abbrev pub Keeps : {E A : Type 0} → V → Out E V A → Type 0
  Keeps s r = Ensures (λ _. Same laws.look s) (λ _. Same laws.look s) r

  -- A call that leaves the tables as they were, behind others that did.
  pub then-Keeps :
      {E F A : Type 0} {s s₁ : V} (g : E → F) {r : Out E V A}
      → Same laws.look s s₁
      → SameAfter laws.look s₁ r
      → Keeps s (out_map_err g r)
  then-Keeps g h call =
      Ensures-map_err g
        (Ensures-weaken call (λ _ _ k. Same-trans laws.look k h)
          (λ _ _ k. Same-trans laws.look k h))
        (λ _ _ k. k)

  pub allow_existing-Keeps :
      (r : Result SdError (Unit {0})) {s s' : V}
      → Same laws.look s s'
      → Keeps s (allow_existing r s')
  allow_existing-Keeps (good x) h = returns h
  allow_existing-Keeps (bad not_found) h = fails h
  allow_existing-Keeps (bad dir_already_exists) h = returns h
  allow_existing-Keeps (bad (other n)) h = fails h

  pub allow_duplicate-Keeps :
      {A : Type 0} (a : A) (r : Result DbError A) {s s' : V}
      → Same laws.look s s'
      → Keeps s (allow_duplicate a r s')
  allow_duplicate-Keeps a (good x) h = returns h
  allow_duplicate-Keeps a (bad duplicate_key) h = returns h
  allow_duplicate-Keeps a (bad (DbError.other n)) h = fails h

  pub ensure_dir-Keeps :
      (root : RawDirectory) (name : Bytes) {s s₁ : V}
      → Same laws.look s s₁
      → Keeps s (ensure_dir vm ops root name s₁)
  unfolding ensure_dir
  ensure_dir-Keeps root name h =
      Ensures-attempt allow_existing (laws.make_dir_keeps root name _)
        (λ x _ g. allow_existing-Keeps (good x) (Same-trans laws.look g h))
        (λ e _ g. allow_existing-Keeps (bad e) (Same-trans laws.look g h))

  pub add_columns-Keeps :
      (db : B) (columns : List Column) {s s₁ : V}
      → Same laws.look s s₁
      → Keeps s (add_columns vm ops db columns s₁)
  add_columns-Keeps db [] h = returns h
  add_columns-Keeps db (c ∷ cs) h =
      Ensures-bind _ (then-Keeps db_err h (laws.add_column_keeps db c _))
        (λ _ _ h₂. add_columns-Keeps db cs h₂)

  pub ensure_table-Keeps :
      (db : B) (name : Bytes) (columns : List Column) {s s₁ : V}
      → Same laws.look s s₁
      → Keeps s (ensure_table vm ops db name columns s₁)
  unfolding ensure_table
  ensure_table-Keeps db name columns h =
      Ensures-bind _
        (add_columns-Keeps db columns (Same-trans laws.look (laws.begin_keeps db name _) h))
        (λ _ _ h₂.
          Ensures-attempt (allow_duplicate 0) (laws.create_table_keeps db _)
            (λ x _ g. allow_duplicate-Keeps 0 (good x) (Same-trans laws.look g h₂))
            (λ e _ g. allow_duplicate-Keeps 0 (bad e) (Same-trans laws.look g h₂)))
