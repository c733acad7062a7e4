-- ===== src/Ram.antt =====
-- A volume manager in memory and a connection that keeps what it is sent: concrete functions for
-- the interfaces of embedded_sdmmc and picoserve, which meet the laws that the theorems assume.
pub mod Meets
pub mod Changes
pub mod Tables
pub mod Kept
pub mod Named
pub mod Serves
use esp32_music_server.Prelude.{
  ℕ, zero, suc, ◌+◌, ◌≤◌, ◌≡◌, refl, Bool, true, false, ◌||◌, List, [], ◌∷◌, ◌++◌, Bytes, codes,
  length, take, drop, leb, same, elem, erase, if◌then◌else◌, arith,
}
use esp32_music_server.Run.{Out, ok, err, Act}
use esp32_music_server.Sdmmc.{SdError, not_found, other, Mode, DirEntry, Sd, VolumeManager}
use esp32_music_server.FileManager.{Device}
use esp32_music_server.Database.{Row, TableId}
use esp32_music_server.Server.Writer.{ChunkWriter}

-- Every directory shows the same names, and every file has the same text and cursor. `gone` has the
-- names that were deleted, and `rows` the rows of the database's tables, the latest first.
pub record Disk : Type 0 where
  pub dirs : List ℕ
  pub files : List ℕ
  pub text : Bytes
  pub cursor : ℕ
  pub gone : List Bytes
  pub rows : List (TableId × Row)

abbrev pub fresh : List ℕ → ℕ
fresh [] = 0
fresh (x ∷ xs) = suc x + fresh xs

abbrev pub push_dir : Sd Disk ℕ
push_dir s = ok (fresh s.dirs) (record s { dirs = fresh s.dirs ∷ s.dirs })

abbrev pub push_file : Sd Disk ℕ
push_file s = ok (fresh s.files) (record s { files = fresh s.files ∷ s.files; cursor = 0 })

abbrev pub move_to : ℕ → Sd Disk (Unit {0})
move_to n s = ok tt (record s { cursor = n })

abbrev pub is_dir_name : Bytes → Bool
is_dir_name n = same n (codes "music") || same n (codes "files") || same n (codes "db")

abbrev pub is_missing : Bytes → Bool
is_missing n = same n (codes "missing")

abbrev pub mem : Bytes → List Bytes → Bool
mem n [] = false
mem n (x ∷ xs) = same x n || mem n xs

abbrev pub is_gone : Disk → Bytes → Bool
is_gone s n = is_missing n || mem n s.gone

abbrev pub remove : Bytes → Sd Disk (Unit {0})
remove n s = ok tt (record s { gone = n ∷ s.gone })

abbrev pub entry_of : Bytes → ℕ → DirEntry
entry_of n size = record {
  base_name = n;
  extension = [];
  size = size;
  is_directory = is_dir_name n;
  is_volume = false;
}

abbrev pub ram : VolumeManager Disk
ram = record {
  open_raw_volume = λ i s. ok 7 s;
  open_root_dir = λ vol. push_dir;
  open_dir = λ d n. if is_dir_name n then push_dir else err not_found;
  close_dir = λ d s. ok tt (record s { dirs = erase d s.dirs });
  iterate_dir = λ d s. ok (entry_of (codes "music") 0 ∷ []) s;
  find_directory_entry =
      λ d n s. (if is_missing n then err not_found else ok (entry_of n (length s.text))) s;
  make_dir_in_dir = λ d n s. ok tt s;
  delete_file_in_dir = λ d n s. (if is_gone s n then err not_found else remove n) s;
  open_file_in_dir = λ d n m. if is_missing n then err not_found else push_file;
  close_file = λ f s. ok tt (record s { files = erase f s.files });
  flush_file = λ f s. ok tt s;
  file_length = λ f s. ok (length s.text) s;
  file_eof = λ f s. ok (leb (length s.text) s.cursor) s;
  seek_from_start = λ f n s. (if leb n (length s.text) then move_to n else err (other 1)) s;
  read = λ f n s.
      let bs = take n (drop s.cursor s.text) in ok bs (record s { cursor = s.cursor + length bs });
  write = λ f bs s. ok tt (record s {
    text = take s.cursor s.text ++ (bs ++ drop (s.cursor + length bs) s.text);
    cursor = s.cursor + length bs;
  });
}

abbrev pub disk_of : Bytes → Disk
disk_of text = record { dirs = []; files = []; text = text; cursor = 0; gone = []; rows = [] }

-- What the connection was sent.
abbrev pub recorder : ChunkWriter ℕ Bytes
recorder = record {
  write_chunk = λ chunk w. ok tt (w ++ chunk);
  write_fmt = λ text w. ok tt (w ++ text);
  finalize = λ w. ok tt w;
}

-- A connection that is broken.
abbrev pub broken_pipe : ChunkWriter ℕ Bytes
broken_pipe = record {
  write_chunk = λ chunk w. err 32 w;
  write_fmt = λ text w. err 32 w;
  finalize = λ w. err 32 w;
}

-- A device is its disk, and mounting opens the volume 7.
abbrev pub ram_device : Device Disk Disk
ram_device = record { new_manager = λ d. d; free = λ s. s }
