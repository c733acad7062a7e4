-- ===== src/Sdmmc.antt =====
-- The interface of the crate embedded_sdmmc, which is not part of the repository: the calls of
-- `VolumeManager` that the code makes. `V` is the state behind a volume manager.
pub mod Handles
pub mod Rules
pub mod Contents
pub mod Store
use esp32_music_server.Prelude.{ℕ, Bool, List, Bytes}
use esp32_music_server.Run.{Act, ignore, then_drop}

-- `embedded_sdmmc::Error`: the two variants that the code names; the others by a number.
pub data SdError : Type 0 where
  not_found dir_already_exists : SdError
  other : ℕ → SdError

pub data Mode : Type 0 where
  read_only read_write_append read_write_create : Mode

-- What the code reads of a `DirEntry`: the name is the base name and the extension.
pub record DirEntry : Type 0 where
  pub base_name : Bytes
  pub extension : Bytes
  pub size : ℕ
  pub is_directory : Bool
  pub is_volume : Bool

-- A `RawDirectory`, a `RawFile` and a `RawVolume` are the numbers of open handles.
abbrev pub RawDirectory : Type 0
RawDirectory = ℕ

abbrev pub RawFile : Type 0
RawFile = ℕ

abbrev pub RawVolume : Type 0
RawVolume = ℕ

abbrev pub Sd : Type 0 → Type 0 → Type 0
Sd V A = Act SdError V A

pub record VolumeManager (V : Type 0) : Type 0 where
  pub open_raw_volume : ℕ → Sd V RawVolume
  pub open_root_dir : RawVolume → Sd V RawDirectory
  pub open_dir : RawDirectory → Bytes → Sd V RawDirectory
  pub close_dir : RawDirectory → Sd V (Unit {0})
  -- The entries that `iterate_dir` calls its argument with, in order.
  pub iterate_dir : RawDirectory → Sd V (List DirEntry)
  pub find_directory_entry : RawDirectory → Bytes → Sd V DirEntry
  pub make_dir_in_dir : RawDirectory → Bytes → Sd V (Unit {0})
  pub delete_file_in_dir : RawDirectory → Bytes → Sd V (Unit {0})
  pub open_file_in_dir : RawDirectory → Bytes → Mode → Sd V RawFile
  pub close_file : RawFile → Sd V (Unit {0})
  pub flush_file : RawFile → Sd V (Unit {0})
  pub file_length : RawFile → Sd V ℕ
  pub file_eof : RawFile → Sd V Bool
  pub seek_from_start : RawFile → ℕ → Sd V (Unit {0})
  -- The number is the length of the buffer; the result is what was read into its front.
  pub read : RawFile → ℕ → Sd V Bytes
  pub write : RawFile → Bytes → Sd V (Unit {0})

-- `to_directory` and `to_file` wrap a handle, which is closed where the wrapper goes out of scope.
abbrev pub scoped_dir : {E V A : Type 0} → VolumeManager V → RawDirectory → Act E V A → Act E V A
scoped_dir vm d body = then_drop body (ignore (vm.close_dir d))

abbrev pub scoped_file : {E V A : Type 0} → VolumeManager V → RawFile → Act E V A → Act E V A
scoped_file vm f body = then_drop body (ignore (vm.close_file f))
