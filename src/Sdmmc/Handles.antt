-- ===== src/Sdmmc/Handles.antt =====
-- What the code relies on of the handles of embedded_sdmmc: a call that opens adds a fresh handle,
-- a call that closes removes one, and the others leave the open handles alone.
use esp32_music_server.Prelude.{ℕ, ◌≡◌, false, List, ◌∷◌, Bytes, elem, erase}
use esp32_music_server.Run.{Out, Ensures}
use esp32_music_server.Sdmmc.{SdError, Mode, RawDirectory, RawFile, RawVolume, VolumeManager}

-- The open directories and the open files, the latest first.
pub record Tables (V : Type 0) : Type 0 where
  pub dirs : V → List RawDirectory
  pub files : V → List RawFile

module _ {V : Type 0} (t : Tables V) where
  pub record Opens (s : V) (ds : List RawDirectory) (fs : List RawFile) : Type 0 where
    pub dirs_are : t.dirs s ≡ ds
    pub files_are : t.files s ≡ fs

  -- Exactly the handles that were open are open.
  abbrev pub Same : V → V → Type 0
  Same s s' = Opens s' (t.dirs s) (t.files s)

  abbrev pub Keeps : {A : Type 0} → (V → Out SdError V A) → Type 0
  Keeps m = (s : V) → Ensures (λ _. Same s) (λ _. Same s) (m s)

  abbrev pub OpensDir : V → Out SdError V RawDirectory → Type 0
  OpensDir s =
      Ensures (λ d s'. Opens s' (d ∷ t.dirs s) (t.files s) × (elem d (t.dirs s) ≡ false))
        (λ _. Same s)

  abbrev pub OpensFile : V → Out SdError V RawFile → Type 0
  OpensFile s =
      Ensures (λ f s'. Opens s' (t.dirs s) (f ∷ t.files s) × (elem f (t.files s) ≡ false))
        (λ _. Same s)

  -- A directory is closed whatever `close_dir` returns; so is a file, also when its flush fails.
  abbrev pub ClosesDir : V → RawDirectory → Out SdError V (Unit {0}) → Type 0
  ClosesDir s d =
      Ensures (λ _ s'. Opens s' (erase d (t.dirs s)) (t.files s))
        (λ _ s'. Opens s' (erase d (t.dirs s)) (t.files s))

  abbrev pub ClosesFile : V → RawFile → Out SdError V (Unit {0}) → Type 0
  ClosesFile s f =
      Ensures (λ _ s'. Opens s' (t.dirs s) (erase f (t.files s)))
        (λ _ s'. Opens s' (t.dirs s) (erase f (t.files s)))

pub record HandleLaws {V : Type 0} (vm : VolumeManager V) : Type 0 where
  pub tables : Tables V
  pub open_root_dir_opens : (vol : RawVolume) (s : V) → OpensDir tables s (vm.open_root_dir vol s)
  pub open_dir_opens :
      (d : RawDirectory) (n : Bytes) (s : V) → OpensDir tables s (vm.open_dir d n s)
  pub close_dir_closes : (d : RawDirectory) (s : V) → ClosesDir tables s d (vm.close_dir d s)
  pub open_file_opens :
      (d : RawDirectory) (n : Bytes) (m : Mode) (s : V)
      → OpensFile tables s (vm.open_file_in_dir d n m s)
  pub close_file_closes : (f : RawFile) (s : V) → ClosesFile tables s f (vm.close_file f s)
  pub iterate_keeps : (d : RawDirectory) → Keeps tables (vm.iterate_dir d)
  pub find_keeps : (d : RawDirectory) (n : Bytes) → Keeps tables (vm.find_directory_entry d n)
  pub make_dir_keeps : (d : RawDirectory) (n : Bytes) → Keeps tables (vm.make_dir_in_dir d n)
  pub delete_keeps : (d : RawDirectory) (n : Bytes) → Keeps tables (vm.delete_file_in_dir d n)
  pub flush_keeps : (f : RawFile) → Keeps tables (vm.flush_file f)
  pub length_keeps : (f : RawFile) → Keeps tables (vm.file_length f)
  pub eof_keeps : (f : RawFile) → Keeps tables (vm.file_eof f)
  pub seek_keeps : (f : RawFile) (n : ℕ) → Keeps tables (vm.seek_from_start f n)
  pub read_keeps : (f : RawFile) (n : ℕ) → Keeps tables (vm.read f n)
  pub write_keeps : (f : RawFile) (bs : Bytes) → Keeps tables (vm.write f bs)
