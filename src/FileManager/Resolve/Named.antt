-- ===== src/FileManager/Resolve/Named.antt =====
-- What `resolve_path_iter` of file_manager/src/lib.rs returns a handle of: the file or the directory
-- that the names of the path lead to.
use esp32_music_server.Prelude.{◌≡◌, ◌≢◌, ap, ◌∙◌, Option, none, some, List, [], ◌∷◌, Bytes}
use esp32_music_server.Run.{
  Ensures, returns, fails, Ensures-bind, Ensures-attempt, Ensures-if, Ensures-map_err,
  Ensures-weaken, Ensures-bind_sure, ignore,
}
use esp32_music_server.Sdmmc.{RawDirectory, RawVolume, VolumeManager}
use esp32_music_server.Sdmmc.Store.{FullPath, StoreView, Stores, StoreLaws, ReadLaws, PlaceLaws}
use esp32_music_server.FileManager.{
  sd_err, FileType, file, dir, CardState, active, root_dir, if_active,
}
use esp32_music_server.FileManager.OnCard.{OnCard, Ensures-on_card}
use esp32_music_server.FileManager.Resolve.{
  Place, walk, open_last, finish_at, resolve_names, path_names, resolve_path_iter,
}

-- The names put behind a place, one after the other.
abbrev pub onto : List Bytes → FullPath → FullPath
onto [] k = k
onto (n ∷ ns) k = onto ns (n ∷ k)

-- The handle is of the path.
abbrev pub IsAt : {V : Type 0} → StoreView V → FullPath → FileType → V → Type 0
IsAt view k (file entry f) s = view.path s f ≡ k
IsAt view k (dir d) s = view.place s d ≡ k

-- Where the loop went through all names but the last, that one leads from its directory to the path.
abbrev AtLast :
    {V : Type 0} → StoreView V → FullPath → RawDirectory → Option Bytes → List Bytes → V → Type 0
AtLast view k cur none names s = ⊥
AtLast view k cur (some n) [] s = n ∷ view.place s cur ≡ k
AtLast view k cur (some n) (_ ∷ _) s = Unit {0}

module _ {V : Type 0} {vm : VolumeManager V} (laws : StoreLaws vm) (places : PlaceLaws laws)
    (s : V) where
  abbrev Walked : FullPath → Place → V → Type 0
  Walked k p a = AtLast laws.view k p.cur_dir p.prev_name p.names a × Stores laws.view s a

  -- Closing the directory that was left.
  leave :
      {E : Type 0} (cur d : RawDirectory) (k : FullPath) (a : V)
      → cur ≢ d
      → laws.view.place a d ≡ k
      → Stores laws.view s a
      → Ensures {E = E}
          (λ _ b. (laws.view.place b d ≡ k) × Stores laws.view s b)
          (λ _ _. ⊥)
          (ignore (vm.close_dir cur) a)
  leave cur d k a apart at same_a =
      Ensures-attempt _ (places.close_dir_apart cur d a apart)
        (λ _ b (same_place, g). returns (same_place ∙ at, λ j. g j ∙ same_a j))
        (λ _ b (same_place, g). returns (same_place ∙ at, λ j. g j ∙ same_a j))

  walk-Walked :
      (names : List Bytes) (name : Bytes) (cur : RawDirectory) (prev : Option Bytes) (k : FullPath)
      (a : V)
      → laws.view.place a cur ≡ k
      → Stores laws.view s a
      → Ensures (Walked (onto (name ∷ names) k)) (λ _ _. ⊥) (walk vm cur prev (name ∷ names) a)
  unfolding walk
  walk-Walked [] name cur prev k a at same_a = returns (ap (λ q. name ∷ q) at, same_a)
  walk-Walked (peeked ∷ names) name cur prev k a at same_a =
      Ensures-attempt _ (places.find_reads cur name a)
        (λ entry b (same_place, same_b).
          Ensures-if entry.is_directory _ _
            (Ensures-attempt _ (places.open_dir_apart cur name b)
              (λ d c (apart, in_dir, same_c).
                Ensures-bind_sure _
                  (leave cur d (name ∷ k) c apart (in_dir ∙ ap (λ q. name ∷ q) (same_place ∙ at))
                    (λ j. same_c j ∙ same_b j ∙ same_a j))
                  (λ _ e (here, same_e).
                    walk-Walked names peeked d (some name) (name ∷ k) e here same_e))
              (λ _ c same_c. returns (tt, λ j. same_c j ∙ same_b j ∙ same_a j)))
            (returns (tt, λ j. same_b j ∙ same_a j)))
        (λ _ b same_b. returns (tt, λ j. same_b j ∙ same_a j))

-- A handle of the path, which is another one than the directory that it was looked up in.
abbrev Apart : {V : Type 0} → StoreView V → FullPath → RawDirectory → FileType → V → Type 0
Apart view k cur (file entry f) s = view.path s f ≡ k
Apart view k cur (dir d) s = (cur ≢ d) × (view.place s d ≡ k)

module _ {V : Type 0} {vm : VolumeManager V} (laws : StoreLaws vm) (reads : ReadLaws laws)
    (places : PlaceLaws laws) (s : V) where
  open_last-Apart :
      (cur : RawDirectory) (name : Bytes) (k : FullPath) (a : V)
      → name ∷ laws.view.place a cur ≡ k
      → Stores laws.view s a
      → Ensures
          (λ ft b. Apart laws.view k cur ft b × Stores laws.view s b)
          (λ _. Stores laws.view s)
          (open_last vm cur name a)
  unfolding open_last
  open_last-Apart cur name k a at same_a =
      Ensures-bind _
        (Ensures-weaken (places.find_reads cur name a) (λ _ _ g. g) (λ _ _ g j. g j ∙ same_a j))
        (λ entry b (same_place, same_b).
          Ensures-if entry.is_directory _ _
            (Ensures-bind _
              (Ensures-weaken (places.open_dir_apart cur name b) (λ _ _ g. g)
                (λ _ _ g j. g j ∙ same_b j ∙ same_a j))
              (λ d c (apart, in_dir, same_c). returns (
                (apart, in_dir ∙ ap (λ q. name ∷ q) same_place ∙ at),
                λ j. same_c j ∙ same_b j ∙ same_a j,
              )))
            (Ensures-bind _
              (Ensures-weaken (reads.open_file_reads cur name b) (λ _ _ g. g)
                (λ _ _ g j. g j ∙ same_b j ∙ same_a j))
              (λ f c (named, same_c).
                returns (
                  named ∙ ap (λ q. name ∷ q) same_place ∙ at,
                  λ j. same_c j ∙ same_b j ∙ same_a j,
                ))))

  close_last :
      {E : Type 0} (cur : RawDirectory) (k : FullPath) (ft : FileType) (a : V)
      → Apart laws.view k cur ft a × Stores laws.view s a
      → Ensures {E = E}
          (λ _ b. IsAt laws.view k ft b × Stores laws.view s b)
          (λ _ _. ⊥)
          (ignore (vm.close_dir cur) a)
  close_last cur k (dir d) a ((apart, at), same_a) = leave laws places s cur d k a apart at same_a
  close_last cur k (file entry f) a (at, same_a) =
      Ensures-attempt _ (places.close_dir_files cur f a)
        (λ _ b (same_path, g). returns (same_path ∙ at, λ j. g j ∙ same_a j))
        (λ _ b (same_path, g). returns (same_path ∙ at, λ j. g j ∙ same_a j))

  close_only :
      {E : Type 0} (cur : RawDirectory) (a : V)
      → Stores laws.view s a
      → Ensures {E = E} (λ _. Stores laws.view s) (λ _ _. ⊥) (ignore (vm.close_dir cur) a)
  close_only cur a same_a =
      Ensures-attempt _ (laws.close_dir_keeps cur a) (λ _ b g. returns (λ j. g j ∙ same_a j))
        (λ _ b g. returns (λ j. g j ∙ same_a j))

  finish_at-IsAt :
      (k : FullPath) (cur : RawDirectory) (prev : Option Bytes) (names : List Bytes) (a : V)
      → AtLast laws.view k cur prev names a
      → Stores laws.view s a
      → Ensures
          (λ ft b. IsAt laws.view k ft b × Stores laws.view s b)
          (λ _. Stores laws.view s)
          (finish_at vm cur prev names a)
  finish_at-IsAt k cur none names a at same_a = absurd at
  finish_at-IsAt k cur (some name) [] a at same_a =
      Ensures-attempt _ (open_last-Apart cur name k a at same_a)
        (λ ft b h. Ensures-bind_sure _ (close_last cur k ft b h) (λ _ c g. returns g))
        (λ e b h. Ensures-bind_sure _ (close_only cur b h) (λ _ c g. fails g))
  finish_at-IsAt k cur (some name) (_ ∷ _) a at same_a =
      Ensures-bind_sure _ (close_only cur a same_a) (λ _ c g. fails g)

  resolve_names-IsAt :
      (root : RawDirectory) (names : List Bytes) (a : V)
      → laws.view.place a root ≡ []
      → Stores laws.view s a
      → Ensures
          (λ ft b. IsAt laws.view (onto names []) ft b × Stores laws.view s b)
          (λ _. Stores laws.view s)
          (resolve_names vm root names a)
  unfolding resolve_names
  resolve_names-IsAt root [] a at same_a = returns (at, same_a)
  resolve_names-IsAt root (name ∷ names) a at same_a =
      Ensures-bind_sure _ (walk-Walked laws places s names name root none [] a at same_a)
        (λ p b (last, same_b).
          finish_at-IsAt (onto (name ∷ names) []) p.cur_dir p.prev_name p.names b last same_b)

-- What a path resolves to: where `resolve_path_iter` on an active card returns a handle, it is of the
-- file or the directory that the names between the slashes of the path lead to from the root, one
-- below the other. It changes no text, also where it fails, and neither panics nor waits for ever.
pub resolve_path_iter-IsAt :
    {D V : Type 0} {vm : VolumeManager V} (laws : StoreLaws vm) (reads : ReadLaws laws)
    (places : PlaceLaws laws) (path : Bytes) (s : V) (vol : RawVolume)
    → Ensures {S = CardState D V}
        (λ ft.
          OnCard vol
            (λ s'. IsAt laws.view (onto (path_names path) []) ft s' × Stores laws.view s s'))
        (λ _. OnCard vol (Stores laws.view s))
        (resolve_path_iter vm path (active s vol))
unfolding resolve_path_iter if_active root_dir
resolve_path_iter-IsAt laws reads places path s vol = Ensures-on_card vol (
    Ensures-bind _ (Ensures-map_err sd_err (laws.open_root_opens vol s) (λ _ _ g. g))
      (λ d a (at_root, same_a).
        resolve_names-IsAt laws reads places s d (path_names path) a at_root same_a))
