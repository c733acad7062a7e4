-- ===== src/Sdmmc/Store.antt =====
-- What the code relies on of files by their names: an open file is the text that is stored under its
-- name, a write changes that text, and opening, moving and closing change no text.
use esp32_music_server.Prelude.{ℕ, ◌+◌, ◌≤◌, ◌≡◌, ◌≢◌, List, [], ◌∷◌, Bytes, length}
use esp32_music_server.Run.{Out, Ensures}
use esp32_music_server.Sdmmc.{
  RawDirectory, RawFile, RawVolume, VolumeManager, read_only, read_write_append,
}
use esp32_music_server.Sdmmc.Contents.{overwrite}

-- The names from the root down, the last one first.
abbrev pub FullPath : Type 0
FullPath = List Bytes

pub record StoreView (V : Type 0) : Type 0 where
  pub stored : V → FullPath → Bytes
  pub place : V → RawDirectory → FullPath
  pub path : V → RawFile → FullPath
  pub cursor : V → RawFile → ℕ

-- No text has changed.
abbrev pub Stores : {V : Type 0} → StoreView V → V → V → Type 0
Stores v s s' = (k : FullPath) → v.stored s' k ≡ v.stored s k

abbrev pub StoresAfter : {E V A : Type 0} → StoreView V → V → Out E V A → Type 0
StoresAfter v s r = Ensures (λ _. Stores v s) (λ _. Stores v s) r

pub record StoreLaws {V : Type 0} (vm : VolumeManager V) : Type 0 where
  pub view : StoreView V
  pub open_root_opens :
      (vol : RawVolume) (s : V)
      → Ensures
          (λ d s'. (view.place s' d ≡ []) × Stores view s s')
          (λ _. Stores view s)
          (vm.open_root_dir vol s)
  pub open_dir_opens :
      (d : RawDirectory) (n : Bytes) (s : V)
      → Ensures
          (λ d' s'. (view.place s' d' ≡ n ∷ view.place s d) × Stores view s s')
          (λ _. Stores view s)
          (vm.open_dir d n s)
  pub open_file_opens :
      (d : RawDirectory) (n : Bytes) (s : V)
      → Ensures
          (λ f s'. (view.path s' f ≡ n ∷ view.place s d) × Stores view s s')
          (λ _. Stores view s)
          (vm.open_file_in_dir d n read_write_append s)
  pub seek_moves :
      (f : RawFile) (n : ℕ) (s : V)
      → Ensures
          (λ _ s'.
            (view.cursor s' f ≡ n)
            × (n ≤ length (view.stored s (view.path s f)))
            × (view.path s' f ≡ view.path s f)
            × Stores view s s')
          (λ _. Stores view s)
          (vm.seek_from_start f n s)
  pub write_stores :
      (f : RawFile) (bs : Bytes) (s : V)
      → Ensures
          (λ _ s'.
            (view.stored s' (view.path s f)
              ≡ overwrite (view.cursor s f) bs (view.stored s (view.path s f)))
            × (view.cursor s' f ≡ view.cursor s f + length bs)
            × (view.path s' f ≡ view.path s f))
          (λ _ _. Unit {0})
          (vm.write f bs s)
  pub flush_keeps : (f : RawFile) (s : V) → StoresAfter view s (vm.flush_file f s)
  pub close_file_keeps : (f : RawFile) (s : V) → StoresAfter view s (vm.close_file f s)
  pub close_dir_keeps : (d : RawDirectory) (s : V) → StoresAfter view s (vm.close_dir d s)

-- What the code relies on of a file that it only reads: opening it by its name, asking for its length
-- and closing a directory beside it change neither texts nor names.
pub record ReadLaws {V : Type 0} {vm : VolumeManager V} (laws : StoreLaws vm) : Type 0 where
  pub open_file_reads :
      (d : RawDirectory) (n : Bytes) (s : V)
      → Ensures
          (λ f s'. (laws.view.path s' f ≡ n ∷ laws.view.place s d) × Stores laws.view s s')
          (λ _. Stores laws.view s)
          (vm.open_file_in_dir d n read_only s)
  pub length_reads :
      (f : RawFile) (s : V)
      → Ensures
          (λ n s'.
            (n ≡ length (laws.view.stored s (laws.view.path s f)))
            × (laws.view.path s' f ≡ laws.view.path s f)
            × Stores laws.view s s')
          (λ _. Stores laws.view s)
          (vm.file_length f s)
  pub close_dir_reads :
      (d : RawDirectory) (f : RawFile) (s : V)
      → Ensures
          (λ _ s'. (laws.view.path s' f ≡ laws.view.path s f) × Stores laws.view s s')
          (λ _. Stores laws.view s)
          (vm.close_dir d s)

-- What the code relies on of the places of directories: a directory that is opened has another handle
-- than the one it is opened from, and a search, or closing another one, changes no place.
pub record PlaceLaws {V : Type 0} {vm : VolumeManager V} (laws : StoreLaws vm) : Type 0 where
  pub find_reads :
      (d : RawDirectory) (n : Bytes) (s : V)
      → Ensures
          (λ _ s'. (laws.view.place s' d ≡ laws.view.place s d) × Stores laws.view s s')
          (λ _. Stores laws.view s)
          (vm.find_directory_entry d n s)
  pub open_dir_apart :
      (d : RawDirectory) (n : Bytes) (s : V)
      → Ensures
          (λ d' s'.
            (d ≢ d') × (laws.view.place s' d' ≡ n ∷ laws.view.place s d) × Stores laws.view s s')
          (λ _. Stores laws.view s)
          (vm.open_dir d n s)
  pub close_dir_apart :
      (d d' : RawDirectory) (s : V)
      → d ≢ d'
      → Ensures
          (λ _ s'. (laws.view.place s' d' ≡ laws.view.place s d') × Stores laws.view s s')
          (λ _ s'. (laws.view.place s' d' ≡ laws.view.place s d') × Stores laws.view s s')
          (vm.close_dir d s)
  pub close_dir_files :
      (d : RawDirectory) (f : RawFile) (s : V)
      → Ensures
          (λ _ s'. (laws.view.path s' f ≡ laws.view.path s f) × Stores laws.view s s')
          (λ _ s'. (laws.view.path s' f ≡ laws.view.path s f) × Stores laws.view s s')
          (vm.close_dir d s)
