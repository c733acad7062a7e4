-- ===== src/Sdmmc/Rules.antt =====
-- The handle laws of embedded_sdmmc in the form that proofs about handlers apply: from known tables
-- of open handles to known tables.
use mathlib.Core.Path.{subst₂}
use esp32_music_server.Prelude.{ℕ, ◌≡◌, refl, false, List, ◌∷◌, Bytes, elem, erase, erase_head, ◌∙◌}
use esp32_music_server.Run.{
  Out, Ensures, returns, Ensures-weaken, Ensures-attempt, Ensures-then_drop, out_then_drop, pure,
  ignore,
}
use esp32_music_server.Sdmmc.{SdError, Mode, RawDirectory, RawFile, RawVolume, VolumeManager}
use esp32_music_server.Sdmmc.Handles.{Tables, Opens, Keeps, HandleLaws}

-- An action after which the tables are the given ones, whether it returns or fails.
abbrev pub Leaves :
    {V : Type 0} (t : Tables V) {E A : Type 0}
    → List RawDirectory
    → List RawFile
    → Out E V A
    → Type 0
Leaves t ds fs = Ensures (λ _ s. Opens t s ds fs) (λ _ s. Opens t s ds fs)

module _ {V : Type 0} {t : Tables V} where
  pub Opens-refl : (s : V) → Opens t s (t.dirs s) (t.files s)
  Opens-refl s = record { dirs_are = refl; files_are = refl }

  -- What holds of the tables of a state holds of the lists that they are known to be.
  pub Opens-subst :
      (P : List RawDirectory → List RawFile → Type 0) {s : V} {ds : List RawDirectory}
      {fs : List RawFile}
      → Opens t s ds fs
      → P (t.dirs s) (t.files s)
      → P ds fs
  Opens-subst P h p = subst₂ P h.dirs_are h.files_are p

module _ {V : Type 0} {vm : VolumeManager V} (laws : HandleLaws vm) {s : V} {ds : List RawDirectory}
    {fs : List RawFile} (h : Opens laws.tables s ds fs) where
  pub rule_open_root :
      (vol : RawVolume)
      → Ensures
          (λ d s'. Opens laws.tables s' (d ∷ ds) fs × (elem d ds ≡ false))
          (λ _ s'. Opens laws.tables s' ds fs)
          (vm.open_root_dir vol s)
  rule_open_root vol =
      Opens-subst
        (λ ds fs.
          Ensures (λ d s'. Opens laws.tables s' (d ∷ ds) fs × (elem d ds ≡ false))
            (λ _ s'. Opens laws.tables s' ds fs) (vm.open_root_dir vol s))
        h (laws.open_root_dir_opens vol s)

  pub rule_open_dir :
      (d : RawDirectory) (n : Bytes)
      → Ensures
          (λ d' s'. Opens laws.tables s' (d' ∷ ds) fs × (elem d' ds ≡ false))
          (λ _ s'. Opens laws.tables s' ds fs)
          (vm.open_dir d n s)
  rule_open_dir d n =
      Opens-subst
        (λ ds fs.
          Ensures (λ d' s'. Opens laws.tables s' (d' ∷ ds) fs × (elem d' ds ≡ false))
            (λ _ s'. Opens laws.tables s' ds fs) (vm.open_dir d n s))
        h (laws.open_dir_opens d n s)

  pub rule_open_file :
      (d : RawDirectory) (n : Bytes) (m : Mode)
      → Ensures
          (λ f s'. Opens laws.tables s' ds (f ∷ fs) × (elem f fs ≡ false))
          (λ _ s'. Opens laws.tables s' ds fs)
          (vm.open_file_in_dir d n m s)
  rule_open_file d n m =
      Opens-subst
        (λ ds fs.
          Ensures (λ f s'. Opens laws.tables s' ds (f ∷ fs) × (elem f fs ≡ false))
            (λ _ s'. Opens laws.tables s' ds fs) (vm.open_file_in_dir d n m s))
        h (laws.open_file_opens d n m s)

  pub rule_close_dir : (d : RawDirectory) → Leaves laws.tables (erase d ds) fs (vm.close_dir d s)
  rule_close_dir d =
      Opens-subst (λ ds fs. Leaves laws.tables (erase d ds) fs (vm.close_dir d s)) h
        (laws.close_dir_closes d s)

  pub rule_close_file : (f : RawFile) → Leaves laws.tables ds (erase f fs) (vm.close_file f s)
  rule_close_file f =
      Opens-subst (λ ds fs. Leaves laws.tables ds (erase f fs) (vm.close_file f s)) h
        (laws.close_file_closes f s)

  -- A call that keeps the tables of every state.
  pub rule-Keeps :
      {A : Type 0} (m : V → Out SdError V A) → Keeps laws.tables m → Leaves laws.tables ds fs (m s)
  rule-Keeps m k = Opens-subst (λ ds fs. Leaves laws.tables ds fs (m s)) h (k s)

  -- `let _ = vm.close_dir(d)`, which never fails.
  pub rule_drop_dir :
      {E : Type 0} (d : RawDirectory)
      → Ensures {E = E}
          (λ _ s'. Opens laws.tables s' (erase d ds) fs)
          (λ _ _. ⊥)
          (ignore (vm.close_dir d) s)
  rule_drop_dir d =
      Ensures-attempt (λ _. pure tt) (rule_close_dir d) (λ _ _ g. returns g) (λ _ _ g. returns g)

  pub rule_drop_file :
      {E : Type 0} (f : RawFile)
      → Ensures {E = E}
          (λ _ s'. Opens laws.tables s' ds (erase f fs))
          (λ _ _. ⊥)
          (ignore (vm.close_file f) s)
  rule_drop_file f =
      Ensures-attempt (λ _. pure tt) (rule_close_file f) (λ _ _ g. returns g) (λ _ _ g. returns g)

-- A wrapped handle is closed however its body is left, if the body leaves it as it found it.
module _ {V : Type 0} {vm : VolumeManager V} (laws : HandleLaws vm) {ds : List RawDirectory}
    {fs : List RawFile} where
  at_head : {s : V} (d : ℕ) → Opens laws.tables s (erase d (d ∷ ds)) fs → Opens laws.tables s ds fs
  at_head d g = record { dirs_are = g.dirs_are ∙ erase_head d ds; files_are = g.files_are }

  at_head_file :
      {s : V} (f : ℕ) → Opens laws.tables s ds (erase f (f ∷ fs)) → Opens laws.tables s ds fs
  at_head_file f g = record { dirs_are = g.dirs_are; files_are = g.files_are ∙ erase_head f fs }

  pub drop_head_dir :
      {E : Type 0} {s : V} (d : RawDirectory)
      → Opens laws.tables s (d ∷ ds) fs
      → Ensures {E = E} (λ _ s'. Opens laws.tables s' ds fs) (λ _ _. ⊥) (ignore (vm.close_dir d) s)
  drop_head_dir d h = Ensures-weaken (rule_drop_dir laws h d) (λ _ _ g. at_head d g) (λ _ _ g. g)

  pub drop_head_file :
      {E : Type 0} {s : V} (f : RawFile)
      → Opens laws.tables s ds (f ∷ fs)
      → Ensures {E = E} (λ _ s'. Opens laws.tables s' ds fs) (λ _ _. ⊥) (ignore (vm.close_file f) s)
  drop_head_file f h =
      Ensures-weaken (rule_drop_file laws h f) (λ _ _ g. at_head_file f g) (λ _ _ g. g)

  pub close_head_dir :
      {s : V} (d : RawDirectory)
      → Opens laws.tables s (d ∷ ds) fs
      → Leaves laws.tables ds fs (vm.close_dir d s)
  close_head_dir d h =
      Ensures-weaken (rule_close_dir laws h d) (λ _ _ g. at_head d g) (λ _ _ g. at_head d g)

  pub rule_scoped_dir :
      {E A : Type 0} (d : RawDirectory) {r : Out E V A}
      → Leaves laws.tables (d ∷ ds) fs r
      → Leaves laws.tables ds fs (out_then_drop r (ignore (vm.close_dir d)))
  rule_scoped_dir d h =
      Ensures-then_drop (ignore (vm.close_dir d)) h (λ _ _ g. drop_head_dir d g)
        (λ _ _ g. drop_head_dir d g)

  pub rule_scoped_file :
      {E A : Type 0} (f : RawFile) {r : Out E V A}
      → Leaves laws.tables ds (f ∷ fs) r
      → Leaves laws.tables ds fs (out_then_drop r (ignore (vm.close_file f)))
  rule_scoped_file f h =
      Ensures-then_drop (ignore (vm.close_file f)) h (λ _ _ g. drop_head_file f g)
        (λ _ _ g. drop_head_file f g)
