-- ===== src/Server/Delete/Order.antt =====
-- What a deletion of the database leaves in its directory.
use esp32_music_server.Prelude.{
  ◌≡◌, refl, ap, sym, ◌∙◌, Bool-cases, inl, inr, same_sound, Bool, false, Bytes, same,
  if◌then◌else◌,
}
use esp32_music_server.Run.{
  bad, Ensures, returns, fails, Ensures-bind, Ensures-attempt, Ensures-weaken,
}
use esp32_music_server.Sdmmc.{
  SdError, not_found, dir_already_exists, other, RawDirectory, VolumeManager,
}
use esp32_music_server.Server.Delete.{tolerate, delete_file, delete_db_files}

-- What the code relies on of `delete_file_in_dir`: it deletes the named file and no other, and
-- returns `NotFound` only where there is none. The view tells the names in an open directory.
pub record DeleteLaws {V : Type 0} (vm : VolumeManager V) : Type 0 where
  pub present : V → RawDirectory → Bytes → Bool
  pub delete_deletes :
      (d : RawDirectory) (n : Bytes) (s : V)
      → Ensures
          (λ _ s'. (m : Bytes) → present s' d m ≡ (if same n m then false else present s d m))
          (λ e s'.
            (e ≡ not_found → present s d n ≡ false)
            × ((m : Bytes) → present s' d m ≡ present s d m))
          (vm.delete_file_in_dir d n s)

module _ {V : Type 0} {vm : VolumeManager V} (laws : DeleteLaws vm) (d : RawDirectory) where
  -- The named file is gone, and the others are as they were.
  abbrev Gone : Bytes → V → V → Type 0
  Gone n s s' = (m : Bytes) → laws.present s' d m ≡ (if same n m then false else laws.present s d m)

  abbrev Unchanged : V → V → Type 0
  Unchanged s s' = (m : Bytes) → laws.present s' d m ≡ laws.present s d m

  Gone-already : (n : Bytes) (s s' : V) → laws.present s d n ≡ false → Unchanged s s' → Gone n s s'
  Gone-already n s s' absent kept m = elim (Bool-cases (same n m)) [
    | inl here ↦ rw here (kept m ∙ ap (laws.present s d) (sym (same_sound n m here)) ∙ absent)
    | inr elsewhere ↦ rw elsewhere (kept m)
  ]

  tolerate-eq :
      (r : SdError) (n : Bytes) (s s' : V)
      → (r ≡ not_found → laws.present s d n ≡ false)
      → Unchanged s s'
      → Ensures (λ _. Gone n s) (λ _. Unchanged s) (tolerate (bad r) s')
  tolerate-eq not_found n s s' absent kept = returns (Gone-already n s s' (absent refl) kept)
  tolerate-eq dir_already_exists n s s' absent kept = fails kept
  tolerate-eq (other k) n s s' absent kept = fails kept

  pub delete_file-present :
      (n : Bytes) (s : V) → Ensures (λ _. Gone n s) (λ _. Unchanged s) (delete_file vm d n s)
  unfolding delete_file
  delete_file-present n s =
      Ensures-attempt tolerate (laws.delete_deletes d n s) (λ _ s' gone. returns gone)
        (λ e s' (absent, kept). tolerate-eq e n s s' absent kept)

  -- A deletion of the database that succeeds has removed the log and the database file and no other
  -- file of the directory, also where one of them was missing. One that fails has left the
  -- database file, and every file but the log, as it was: the log goes first. The two names differ.
  pub delete_db_files-present :
      (wal_file db_file : Bytes) (s : V)
      → same wal_file db_file ≡ false
      → Ensures
          (λ _ s'.
            (m : Bytes)
            → laws.present s' d m ≡ (
                if same db_file m
                then false
                else if same wal_file m
                then false
                else laws.present s d m))
          (λ _ s'.
            (laws.present s' d db_file ≡ laws.present s d db_file)
            × ((m : Bytes) → same wal_file m ≡ false → laws.present s' d m ≡ laws.present s d m))
          (delete_db_files vm wal_file db_file d s)
  unfolding delete_db_files
  delete_db_files-present wal_file db_file s differ =
      Ensures-bind _
        (Ensures-weaken (delete_file-present wal_file s) (λ _ _ g. g)
          (λ _ _ g. (g db_file, λ m _. g m)))
        (λ _ s₁ gone.
          Ensures-bind _
            (Ensures-weaken (delete_file-present db_file s₁) (λ _ _ g. g)
              (λ _ _ g. (g db_file ∙ gone db_file ∙ rw differ, λ m other. g m ∙ gone m ∙ rw other)))
            (λ _ s₂ gone₂.
              returns (λ m. gone₂ m ∙ ap (λ b. if same db_file m then false else b) (gone m))))
