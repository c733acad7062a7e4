-- ===== src/FileManager/Resolve.antt =====
-- `FileManager::resolve_path_iter` of file_manager/src/lib.rs.
pub mod Handles
pub mod Named
use esp32_music_server.Prelude.{
  Bool, true, false, Option, none, some, List, [], ◌∷◌, Bytes, same, if◌then◌else◌,
}
use esp32_music_server.Run.{
  Act, Result, good, bad, pure, fail, panic, attempt, ignore, map_err, ◌>>=◌, ◌>>◌,
}
use esp32_music_server.Sdmmc.{
  SdError, not_found, DirEntry, RawDirectory, RawVolume, VolumeManager, read_only,
}
use esp32_music_server.FileManager.{FManError, sd_err, FileType, file, dir, Fm, if_active, root_dir}
use esp32_music_server.FileManager.Paths.{trim_matches, split}

abbrev pub drop_first : List Bytes → List Bytes
drop_first [] = []
drop_first (n ∷ ns) = ns

-- The names that the loop walks over: none at all for the root.
unfoldable pub path_names : Bytes → List Bytes
unfolding trim_matches split
path_names path =
    let trimmed = trim_matches path in
    if same trimmed [] then drop_first (split trimmed) else split trimmed

-- The variables of the loop where it ends: the directory, the last name taken and what is left.
pub record Place : Type 0 where
  pub cur_dir : RawDirectory
  pub prev_name : Option Bytes
  pub names : List Bytes

abbrev pub place : RawDirectory → Option Bytes → List Bytes → Place
place d n ns = record { cur_dir = d; prev_name = n; names = ns }

module _ {V : Type 0} (vm : VolumeManager V) where
  module _ {A : Type 0} (cur : RawDirectory) (next : RawDirectory → Act FManError V A)
      (stop : Act FManError V A) where
    abbrev pub moved : Result SdError RawDirectory → Act FManError V A
    moved (good d) = ignore (vm.close_dir cur) >> next d
    moved (bad e) = stop

    abbrev pub descend : Bytes → Result SdError DirEntry → Act FManError V A
    descend name (good entry) =
        if entry.is_directory then attempt (vm.open_dir cur name) >>= moved else stop
    descend name (bad e) = stop

  -- `while let Some(name) = names.next()`; a `break` stops with the names that are left.
  unfoldable pub walk : RawDirectory → Option Bytes → List Bytes → Act FManError V Place
  walk cur prev [] = pure (place cur prev [])
  walk cur prev (name ∷ []) = pure (place cur (some name) [])
  walk cur prev (name ∷ peeked ∷ names) =
      attempt (vm.find_directory_entry cur name)
      >>= descend cur (λ d. walk d (some name) (peeked ∷ names))
          (pure (place cur (some name) (peeked ∷ names))) name

  abbrev pub open_entry : RawDirectory → Bytes → DirEntry → Act SdError V FileType
  open_entry cur name entry =
      if entry.is_directory
      then (do d ← vm.open_dir cur name; pure (dir d))
      else (do f ← vm.open_file_in_dir cur name read_only; pure (file entry f))

  -- The last name, looked up in the directory that the loop ended in.
  unfoldable pub open_last : RawDirectory → Bytes → Act SdError V FileType
  open_last cur name = do entry ← vm.find_directory_entry cur name; open_entry cur name entry

  abbrev pub as_result : {A : Type 0} → Result SdError A → Act FManError V A
  as_result (good a) = pure a
  as_result (bad e) = fail (sd_err e)

  -- What stands behind the loop; `prev_name.unwrap()` panics on none.
  abbrev pub finish_at : RawDirectory → Option Bytes → List Bytes → Act FManError V FileType
  finish_at cur none names = panic
  finish_at cur (some name) [] = do
    ret ← attempt (open_last cur name)
    ignore (vm.close_dir cur)
    as_result ret
  finish_at cur (some name) (_ ∷ _) = do ignore (vm.close_dir cur); fail (sd_err not_found)

  abbrev pub finish : Place → Act FManError V FileType
  finish p = finish_at p.cur_dir p.prev_name p.names

  -- `if let None = names.peek()` returns the root itself.
  unfoldable pub resolve_names : RawDirectory → List Bytes → Act FManError V FileType
  unfolding walk open_last
  resolve_names root [] = pure (dir root)
  resolve_names root (name ∷ names) = do end ← walk root none (name ∷ names); finish end

module _ {D V : Type 0} (vm : VolumeManager V) where
  unfoldable pub resolve_path_iter : Bytes → Fm D V FileType
  unfolding if_active root_dir resolve_names path_names
  resolve_path_iter path =
      if_active λ vol. do cur_dir ← root_dir vm vol; resolve_names vm cur_dir (path_names path)
