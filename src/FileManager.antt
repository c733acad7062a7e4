-- ===== src/FileManager.antt =====
-- file_manager/src/lib.rs and file_manager/src/consts.rs: the errors, the state of the card and the
-- methods of `FileManager`, each one action on the card's state. The lock of the source is held for
-- the whole of a method, so that a method is one step.
pub mod Card
pub mod OnCard
pub mod OpenDir
pub mod Paths
pub mod Resolve
pub mod Init
pub mod Start
use esp32_music_server.Prelude.{ℕ, Bool, true, false, Option, none, some, Bytes, codes}
use esp32_music_server.Run.{
  Out, ok, err, panic, hang, Act, Result, good, bad, pure, fail, map_err, attempt, ignore, ◌>>=◌,
  ◌>>◌,
}
use esp32_music_server.Sdmmc.{SdError, DirEntry, RawDirectory, RawFile, RawVolume, VolumeManager}

abbrev pub files_dir : Bytes
files_dir = codes "files"

abbrev pub music_dir : Bytes
music_dir = codes "music"

abbrev pub db_dir : Bytes
db_dir = codes "db"

abbrev pub count_tracker_table : Bytes
count_tracker_table = codes "count_tracker"

-- `alpa::db::Error`, of a crate that is not part of the repository: the variant that the code names.
pub data DbError : Type 0 where
  duplicate_key : DbError
  other : ℕ → DbError

pub data FManError : Type 0 where
  sd_err : SdError → FManError
  db_err : DbError → FManError
  server_err : Bytes → FManError
  card_not_active is_dir : FManError

pub data FileType : Type 0 where
  file : DirEntry → RawFile → FileType
  dir : RawDirectory → FileType

-- `D` is the block device; the time source has no state.
pub data CardState (D V : Type 0) : Type 0 where
  no_card : D → CardState D V
  active : V → RawVolume → CardState D V
  processing : CardState D V

-- `VolumeManager::new` and `free`.
pub record Device (D V : Type 0) : Type 0 where
  pub new_manager : D → V
  pub free : V → D

abbrev pub Fm : Type 0 → Type 0 → Type 0 → Type 0
Fm D V A = Act FManError (CardState D V) A

-- The volume manager's run, seen as a run of the card.
abbrev pub on_card :
    {D V A : Type 0} → RawVolume → Out FManError V A → Out FManError (CardState D V) A
on_card vol (ok a vm) = ok a (active vm vol)
on_card vol (err e vm) = err e (active vm vol)
on_card vol (panic vm) = panic (active vm vol)
on_card vol (hang vm) = hang (active vm vol)

-- `if let CardState::Active { ref vm, ref vol } = state.card_state`, and the error behind it.
unfoldable pub if_active : {D V A : Type 0} → (RawVolume → Act FManError V A) → Fm D V A
if_active f (no_card device) = err card_not_active (no_card device)
if_active f (active vm vol) = on_card vol (f vol vm)
if_active f processing = err card_not_active processing

unfoldable pub is_card_active : {D V : Type 0} → CardState D V → Bool
is_card_active (no_card _) = false
is_card_active (active _ _) = true
is_card_active processing = false

abbrev pub dir_or : Option RawDirectory → RawDirectory → RawDirectory
dir_or none root = root
dir_or (some d) root = d

module _ {V : Type 0} (vm : VolumeManager V) where
  unfoldable pub root_dir : RawVolume → Act FManError V RawDirectory
  root_dir vol = map_err sd_err (vm.open_root_dir vol)

  abbrev pub close_handle : FileType → Act FManError V (Unit {0})
  close_handle (file _ f) = ignore (vm.close_file f)
  close_handle (dir d) = ignore (vm.close_dir d)

  -- The match on what `vm.open_dir` returned.
  abbrev pub opened : RawDirectory → Result SdError RawDirectory → Act FManError V RawDirectory
  opened root (good d) = ignore (vm.close_dir root) >> pure d
  opened root (bad e) = ignore (vm.close_dir root) >> fail (sd_err e)

module _ {D V : Type 0} (vm : VolumeManager V) where
  unfoldable pub root_dir_lock : Fm D V RawDirectory
  unfolding if_active root_dir
  root_dir_lock = if_active (root_dir vm)

  unfoldable pub with_vol_man : {A : Type 0} → (RawVolume → Act FManError V A) → Fm D V A
  unfolding if_active
  with_vol_man f = if_active f

  unfoldable pub with_root_dir : {A : Type 0} → (RawDirectory → Act FManError V A) → Fm D V A
  unfolding if_active root_dir
  with_root_dir f = if_active (λ vol. root_dir vm vol >>= f)

  unfoldable pub with_root_dir_async : {A : Type 0} → (RawDirectory → Act FManError V A) → Fm D V A
  unfolding if_active root_dir
  with_root_dir_async f = if_active (λ vol. do root ← root_dir vm vol; f root)

  unfoldable pub close_dir : RawDirectory → Fm D V (Unit {0})
  unfolding if_active
  close_dir d = if_active (λ _. map_err sd_err (vm.close_dir d))

  -- Nothing is done, and no error is made, where no card is active.
  unfoldable pub close_file_type : FileType → Fm D V (Unit {0})
  close_file_type t (no_card device) = ok tt (no_card device)
  close_file_type t (active s vol) = on_card vol (close_handle vm t s)
  close_file_type t processing = ok tt processing

  -- The argument of `unwrap_or` is evaluated first: the root is opened also where a directory is
  -- given.
  unfoldable pub open_dir : Option RawDirectory → Bytes → Fm D V RawDirectory
  unfolding if_active root_dir
  open_dir given name = if_active λ vol. do
    fresh ← root_dir vm vol
    let root = dir_or given fresh
    found ← attempt (vm.open_dir root name)
    opened vm root found
