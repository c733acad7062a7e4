-- ===== src/FileManager/Resolve/Handles.antt =====
-- The directory handles that `resolve_path_iter` opens on its way down.
use esp32_music_server.Prelude.{
  ◌≡◌, refl, Option, none, some, List, [], ◌∷◌, Bytes, erase_second, ◌∙◌, false, elem,
}
use esp32_music_server.Run.{
  Ensures, returns, fails, Ensures-bind, Ensures-attempt, Ensures-if, Ensures-map_err,
  Ensures-weaken, Ensures-bind_sure, ignore,
}
use esp32_music_server.Sdmmc.{RawDirectory, RawFile, RawVolume, VolumeManager, read_only}
use esp32_music_server.Sdmmc.Handles.{Tables, Opens, HandleLaws}
use esp32_music_server.Sdmmc.Rules.{
  Opens-refl, rule_open_root, rule_open_dir, rule_open_file, rule-Keeps, drop_head_dir,
  rule_drop_dir,
}
use esp32_music_server.FileManager.{sd_err, FileType, file, dir, CardState, active}
use esp32_music_server.FileManager.OnCard.{OnCard, Ensures-on_card}
use esp32_music_server.FileManager.Resolve.{
  Place, walk, open_last, finish, finish_at, resolve_names, path_names, resolve_path_iter,
}

-- The tables with the handle of a resolved path on top.
abbrev pub Holds :
    {V : Type 0} → Tables V → FileType → List RawDirectory → List RawFile → V → Type 0
Holds t (file _ f) ds fs s = Opens t s ds (f ∷ fs)
Holds t (dir d) ds fs s = Opens t s (d ∷ ds) fs

-- The same, above the directory that it was opened from.
abbrev Above :
    {V : Type 0}
    → Tables V
    → RawDirectory
    → FileType
    → List RawDirectory
    → List RawFile
    → V
    → Type 0
Above t cur (file _ f) ds fs s = Opens t s (cur ∷ ds) (f ∷ fs)
Above t cur (dir d) ds fs s = Opens t s (d ∷ cur ∷ ds) fs × (elem d (cur ∷ ds) ≡ false)

abbrev HasName : Place → Type 0
HasName p = (n : Bytes) × (p.prev_name ≡ some n)

-- The loop holds one directory besides those open before.
abbrev AtPlace : {V : Type 0} → Tables V → List RawDirectory → List RawFile → Place → V → Type 0
AtPlace t ds fs p s = Opens t s (p.cur_dir ∷ ds) fs × HasName p

module _ {V : Type 0} {vm : VolumeManager V} (laws : HandleLaws vm) {ds : List RawDirectory}
    {fs : List RawFile} where
  pub drop_second :
      {E : Type 0} {s : V} (cur d : RawDirectory)
      → Opens laws.tables s (d ∷ cur ∷ ds) fs
      → elem d (cur ∷ ds) ≡ false
      → Ensures {E = E}
          (λ _ s'. Opens laws.tables s' (d ∷ ds) fs)
          (λ _ _. ⊥)
          (ignore (vm.close_dir cur) s)
  drop_second cur d h fresh =
      Ensures-weaken (rule_drop_dir laws h cur)
        (λ _ _ g. record {
          dirs_are = g.dirs_are ∙ erase_second cur d ds fresh;
          files_are = g.files_are;
        })
        (λ _ _ g. g)

  walk-handles :
      (names : List Bytes) (name : Bytes) (cur : RawDirectory) (prev : Option Bytes) {s : V}
      → Opens laws.tables s (cur ∷ ds) fs
      → Ensures (AtPlace laws.tables ds fs) (λ _ _. ⊥) (walk vm cur prev (name ∷ names) s)
  unfolding walk
  walk-handles [] name cur prev h = returns (h, (name, refl))
  walk-handles (peeked ∷ names) name cur prev {s} h =
      Ensures-attempt _
        (rule-Keeps laws h (vm.find_directory_entry cur name) (laws.find_keeps cur name))
        (λ entry s₁ h₁.
          Ensures-if entry.is_directory _ _
            (Ensures-attempt _ (rule_open_dir laws h₁ cur name)
              (λ d s₂ (h₂, fresh).
                Ensures-bind_sure _ (drop_second cur d h₂ fresh)
                  (λ _ s₃ h₃. walk-handles names peeked d (some name) h₃))
              (λ _ _ h₂. returns (h₂, (name, refl))))
            (returns (h₁, (name, refl))))
        (λ _ _ h₁. returns (h₁, (name, refl)))

  -- The handle of the last name stands above the directory that it was looked up in.
  open_last-handles :
      (cur : RawDirectory) (name : Bytes) {s : V}
      → Opens laws.tables s (cur ∷ ds) fs
      → Ensures
          (λ ft s'. Above laws.tables cur ft ds fs s')
          (λ _ s'. Opens laws.tables s' (cur ∷ ds) fs)
          (open_last vm cur name s)
  unfolding open_last
  open_last-handles cur name h =
      Ensures-bind _
        (rule-Keeps laws h (vm.find_directory_entry cur name) (laws.find_keeps cur name))
        λ entry s₁ h₁.
          Ensures-if entry.is_directory _ _
            (Ensures-bind _ (rule_open_dir laws h₁ cur name) (λ d s₂ h₂. returns h₂))
            (Ensures-bind _ (rule_open_file laws h₁ cur name read_only) (λ f s₂ h₂. returns h₂.0))

module _ {V : Type 0} {vm : VolumeManager V} (laws : HandleLaws vm) (ds : List RawDirectory)
    (fs : List RawFile) where
  close_below :
      {E : Type 0} (cur : RawDirectory) (ft : FileType) (s : V)
      → Above laws.tables cur ft ds fs s
      → Ensures {E = E}
          (λ _ s'. Holds laws.tables ft ds fs s')
          (λ _ _. ⊥)
          (ignore (vm.close_dir cur) s)
  close_below cur (file entry f) s h = drop_head_dir laws cur h
  close_below cur (dir d) s (h, fresh) = drop_second laws cur d h fresh

  finish-handles :
      (p : Place) {s : V}
      → AtPlace laws.tables ds fs p s
      → Ensures
          (λ ft s'. Holds laws.tables ft ds fs s')
          (λ _ s'. Opens laws.tables s' ds fs)
          (finish vm p s)
  finish-handles p {s} (h, (name, named)) = rw named (at_names p.names)
    where
      at_names :
          (names : List Bytes)
          → Ensures
              (λ ft s'. Holds laws.tables ft ds fs s')
              (λ _ s'. Opens laws.tables s' ds fs)
              (finish_at vm p.cur_dir (some name) names s)
      at_names [] =
          Ensures-attempt _ (open_last-handles laws p.cur_dir name h)
            (λ ft s₁ h₁.
              Ensures-bind_sure _ (close_below p.cur_dir ft s₁ h₁) (λ _ s₂ h₂. returns h₂))
            (λ e s₁ h₁. Ensures-bind_sure _ (drop_head_dir laws p.cur_dir h₁) (λ _ s₂ h₂. fails h₂))
      at_names (_ ∷ _) = Ensures-bind_sure _ (drop_head_dir laws p.cur_dir h) (λ _ s₂ h₂. fails h₂)

  resolve_names-handles :
      (root : RawDirectory) (names : List Bytes) {s : V}
      → Opens laws.tables s (root ∷ ds) fs
      → Ensures
          (λ ft s'. Holds laws.tables ft ds fs s')
          (λ _ s'. Opens laws.tables s' ds fs)
          (resolve_names vm root names s)
  unfolding resolve_names
  resolve_names-handles root [] h = returns h
  resolve_names-handles root (name ∷ names) h =
      Ensures-bind_sure _ (walk-handles laws names name root none h)
        (λ p s₁ h₁. finish-handles p h₁)

-- Whatever the path and whatever fails on the way, `resolve_path_iter` on an active card leaves
-- open what was open before, and besides only the handle that it returns; it never panics, and the
-- card stays active on its volume.
pub resolve_path_iter-handles :
    {D V : Type 0} {vm : VolumeManager V} (laws : HandleLaws vm) (path : Bytes) (s : V)
    (vol : RawVolume)
    → Ensures {S = CardState D V}
        (λ ft. OnCard vol (Holds laws.tables ft (laws.tables.dirs s) (laws.tables.files s)))
        (λ _. OnCard vol (λ s'. Opens laws.tables s' (laws.tables.dirs s) (laws.tables.files s)))
        (resolve_path_iter vm path (active s vol))
unfolding resolve_path_iter
resolve_path_iter-handles {vm} laws path s vol = Ensures-on_card vol (
    Ensures-bind _ (Ensures-map_err sd_err (rule_open_root laws (Opens-refl s) vol) (λ _ _ g. g))
      (λ d s₁ (h₁, fresh). resolve_names-handles laws _ _ d (path_names path) h₁))
