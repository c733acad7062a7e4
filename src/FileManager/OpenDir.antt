-- ===== src/FileManager/OpenDir.antt =====
-- The handles of `FileManager::open_dir` of file_manager/src/lib.rs.
use esp32_music_server.Prelude.{
  ◌≡◌, refl, ◌∙◌, true, false, Option, none, some, List, ◌∷◌, Bytes, elem, erase, ==_iff, ◌==◌,
  arith, ap, sym, Bool-cases, inl, inr,
}
use esp32_music_server.Run.{
  ok, err, Ensures, returns, fails, Ensures-bind, Ensures-bind_sure, Ensures-attempt,
  Ensures-map_err, Ensures-known,
}
use esp32_music_server.Sdmmc.{SdError, RawDirectory, RawVolume, VolumeManager}
use esp32_music_server.Sdmmc.Handles.{Opens, HandleLaws}
use esp32_music_server.Sdmmc.Rules.{
  Opens-refl, rule_open_root, rule_open_dir, rule_drop_dir, drop_head_dir,
}
use esp32_music_server.FileManager.{
  FManError, sd_err, CardState, active, root_dir, dir_or, open_dir,
}
use esp32_music_server.FileManager.OnCard.{OnCard, Ensures-on_card}
use esp32_music_server.FileManager.Resolve.Handles.{drop_second}

-- The directory that is given, if any, is open.
abbrev pub IsOpen : Option RawDirectory → List RawDirectory → Type 0
IsOpen none ds = Unit {0}
IsOpen (some given) ds = elem given ds ≡ true

-- What is left open beside the handle that is returned: where a directory was given, this one is
-- closed and the root is not.
abbrev pub left_open : Option RawDirectory → RawDirectory → List RawDirectory → List RawDirectory
left_open none root ds = ds
left_open (some given) root ds = root ∷ erase given ds

module _ {V : Type 0} {vm : VolumeManager V} (laws : HandleLaws vm) (name : Bytes) (s : V)
    (vol : RawVolume) (given : Option RawDirectory) where
  -- The root was opened, with a fresh handle, and then the name in the given directory, or else in
  -- the root, with another fresh one.
  pub record Opened (d : RawDirectory) (s' : V) : Type 0 where
    pub root : RawDirectory
    pub at_root : V
    pub at_dir : V
    pub root_opened : vm.open_root_dir vol s ≡ ok root at_root
    pub dir_opened : vm.open_dir (dir_or given root) name at_root ≡ ok d at_dir
    pub root_fresh : elem root (laws.tables.dirs s) ≡ false
    pub dir_fresh : elem d (root ∷ laws.tables.dirs s) ≡ false
    pub open_now :
        Opens laws.tables s' (d ∷ left_open given root (laws.tables.dirs s)) (laws.tables.files s)

  -- The call that failed, whose error it is, and the handles behind it.
  pub data Unopened (e : FManError) (s' : V) : Type 0 where
    no_root :
        (refused : SdError)
        → vm.open_root_dir vol s ≡ err refused s'
        → e ≡ sd_err refused
        → Opens laws.tables s' (laws.tables.dirs s) (laws.tables.files s)
        → Unopened e s'
    no_dir :
        (root : RawDirectory) (at_root at_dir : V) (refused : SdError)
        → vm.open_root_dir vol s ≡ ok root at_root
        → vm.open_dir (dir_or given root) name at_root ≡ err refused at_dir
        → e ≡ sd_err refused
        → elem root (laws.tables.dirs s) ≡ false
        → Opens laws.tables s' (left_open given root (laws.tables.dirs s)) (laws.tables.files s)
        → Unopened e s'

-- A handle that is not in a list is another than one that is.
not_same :
    (x g : RawDirectory) (ds : List RawDirectory)
    → elem x ds ≡ false
    → elem g ds ≡ true
    → (x == g) ≡ false
not_same x g ds absent there = elim (Bool-cases (x == g)) [
  | inl same ↦
      let here : x ≡ g = (==_iff x g).0 same in
      absurd (ground (arith, sym absent ∙ ap (λ y. elem y ds) here ∙ there))
  | inr other ↦ other
]

elem_later :
    (g x : RawDirectory) (ds : List RawDirectory) → elem g ds ≡ true → elem g (x ∷ ds) ≡ true
elem_later g x ds h = ground (h, arith)

erase_under :
    (x g : RawDirectory) (ds : List RawDirectory)
    → (x == g) ≡ false
    → erase g (x ∷ ds) ≡ x ∷ erase g ds
erase_under x g ds h = rw h refl

module _ {D V : Type 0} {vm : VolumeManager V} (laws : HandleLaws vm) (name : Bytes) (s : V)
    (vol : RawVolume) where
  -- On an active card `open_dir` without a directory leaves the handle that it returns, and no
  -- other, besides those that were open, and none where it fails. With a directory that is open it
  -- opens the name in it and closes it, and a fresh handle of the root, that nothing returns, stays
  -- open, also where the name cannot be opened; only where the root cannot be opened has nothing
  -- changed, and the given directory is still open. The error is that of the call that failed. It
  -- never panics.
  pub open_dir-handles :
      (given : Option RawDirectory)
      → IsOpen given (laws.tables.dirs s)
      → Ensures {S = CardState D V}
          (λ d. OnCard vol (Opened laws name s vol given d))
          (λ e. OnCard vol (Unopened laws name s vol given e))
          (open_dir vm given name (active s vol))
  unfolding open_dir root_dir
  open_dir-handles none there = Ensures-on_card vol (
      Ensures-bind _
        (Ensures-map_err sd_err (Ensures-known (rule_open_root laws (Opens-refl s) vol))
          (λ e a (g, refused). no_root e refused refl g))
        (λ root a ((h, fresh), opened).
          Ensures-attempt _ (Ensures-known (rule_open_dir laws h root name))
            (λ d b ((g, new), found). Ensures-bind_sure _ (drop_second laws root d g new) (λ _ _ k.
              returns (record {
                root = root;
                at_root = a;
                at_dir = b;
                root_opened = opened;
                dir_opened = found;
                root_fresh = fresh;
                dir_fresh = new;
                open_now = k;
              })))
            (λ e b (g, refused).
              Ensures-bind_sure _ (drop_head_dir laws root g)
                (λ _ _ k. fails (no_dir root a b e opened refused refl fresh k)))))
  open_dir-handles (some given) there = Ensures-on_card vol (
      Ensures-bind _
        (Ensures-map_err sd_err (Ensures-known (rule_open_root laws (Opens-refl s) vol))
          (λ e a (g, refused). no_root e refused refl g))
        (λ root a ((h, fresh), opened).
          let ds : List RawDirectory = laws.tables.dirs s in
          let under : (root == given) ≡ false = not_same root given ds fresh there in
          Ensures-attempt _ (Ensures-known (rule_open_dir laws h given name))
            (λ d b ((g, new), found).
              let above : (d == given) ≡ false =
                not_same d given (root ∷ ds) new (elem_later given root ds there) in
              Ensures-bind_sure _ (rule_drop_dir laws g given) (λ _ _ k. returns (record {
                root = root;
                at_root = a;
                at_dir = b;
                root_opened = opened;
                dir_opened = found;
                root_fresh = fresh;
                dir_fresh = new;
                open_now = record {
                  dirs_are =
                      k.dirs_are
                      ∙ erase_under d given (root ∷ ds) above
                      ∙ ap (λ xs. d ∷ xs) (erase_under root given ds under);
                  files_are = k.files_are;
                };
              })))
            (λ e b (g, refused). Ensures-bind_sure _ (rule_drop_dir laws g given) (λ _ _ k. fails (
              no_dir root a b e opened refused refl fresh (record {
                dirs_are = k.dirs_are ∙ erase_under root given ds under;
                files_are = k.files_are;
              }))))))
