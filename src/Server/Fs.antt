-- ===== src/Server/Fs.antt =====
-- server/src/fs.rs: the page of a directory and the view of a file. The two pages that
-- `include_str!` puts in, and the texts that `{:?}` makes of errors, are parameters.
pub mod View
pub mod Dir
pub mod Broken
pub mod Whole
use esp32_music_server.Prelude.{
  ℕ, zero, suc, Bool, true, false, not, ◌||◌, List, [], ◌∷◌, ◌++◌, Bytes, codes, same,
  if◌then◌else◌,
}
use esp32_music_server.Run.{
  Out, ok, err, panic, hang, Act, Result, good, bad, pure, fail, attempt, ignore, unwrap, ◌>>=◌,
  ◌>>◌,
}
use esp32_music_server.Std.Decimal.{to_string}
use esp32_music_server.Sdmmc.{SdError, DirEntry, RawDirectory, RawFile, VolumeManager}
use esp32_music_server.FileManager.{
  FManError, FileType, file, dir, CardState, no_card, active, processing, close_file_type,
}
use esp32_music_server.FileManager.Resolve.{resolve_path_iter}
use esp32_music_server.Server.Writer.{ChunkWriter, lift_vm, on_volume, lift_writer, on_session}

pub record Texts : Type 0 where
  pub dir_page : Bytes
  pub file_page : Bytes
  pub debug_sd : SdError → Bytes
  pub debug_error : FManError → Bytes

-- The name's end: a slash for a directory, and a dot and the extension for a file, which may be
-- empty.
abbrev pub entry_end : DirEntry → Bytes
entry_end entry = if entry.is_directory then codes "/" else codes "." ++ entry.extension

-- The text of one entry, `buf`.
abbrev pub entry_text : DirEntry → Bytes
entry_text entry =
    codes "<div><span class=\"size\">"
    ++ (to_string entry.size
        ++ (codes " B</span><a>" ++ (entry.base_name ++ (entry_end entry ++ codes "</a></div>"))))

-- `files`: the volume's own entry is left out.
abbrev pub entry_texts : List DirEntry → List Bytes
entry_texts [] = []
entry_texts (entry ∷ entries) =
    if entry.is_volume then entry_texts entries else entry_text entry ∷ entry_texts entries

module _ {I S : Type 0} (vm : VolumeManager S) (writer : ChunkWriter I S) (texts : Texts) where
  unfoldable pub send_entries : List Bytes → Act I S (Unit {0})
  send_entries [] = pure tt
  send_entries (f ∷ files) = do
    writer.write_chunk f
    writer.write_chunk (codes "<br>")
    send_entries files

  unfoldable pub send_dir : RawDirectory → Act I S (Unit {0})
  send_dir d = do
    entries ← (λ s. unwrap (vm.iterate_dir d s))
    send_entries (entry_texts entries)
    writer.write_chunk texts.dir_page

  abbrev pub send_error : SdError → Act I S (Unit {0})
  send_error e = writer.write_chunk (codes "error: " ++ texts.debug_sd e)

  abbrev pub after_eof : Act I S (Unit {0}) → Result SdError Bool → Act I S (Unit {0})
  after_eof again (good true) = pure tt
  after_eof again (good false) = again
  after_eof again (bad e) = send_error e

  -- A chunk is the front of the buffer that was read into.
  abbrev pub after_read : Act I S (Unit {0}) → RawFile → Result SdError Bytes → Act I S (Unit {0})
  after_read again f (good bs) =
      writer.write_chunk bs >> (attempt (vm.file_eof f) >>= after_eof again)
  after_read again f (bad e) = send_error e

  -- `loop`, on fuel, with a buffer of `n` bytes.
  unfoldable pub view_loop : ℕ → ℕ → RawFile → Act I S (Unit {0})
  view_loop n zero f = hang
  view_loop n (suc fuel) f = attempt (vm.read f n) >>= after_read (view_loop n fuel f) f

  abbrev pub only_if : Bool → Bytes → Act I S (Unit {0})
  only_if b text = if b then writer.write_chunk text else pure tt

  unfoldable pub view_file : ℕ → ℕ → DirEntry → RawFile → Act I S (Unit {0})
  view_file n fuel entry f = do
    if same entry.extension (codes "TXT") || same entry.extension (codes "HTM")
        then (do
          only_if (same entry.extension (codes "TXT")) (codes "<pre>")
          view_loop n fuel f
          only_if (same entry.extension (codes "TXT")) (codes "</pre>"))
        else writer.write_chunk (codes "only files with TXT or HTM extension is supported to view.")
    only_if (not (same entry.extension (codes "HTM"))) texts.file_page

  abbrev pub send_file_type : ℕ → ℕ → FileType → Act I S (Unit {0})
  send_file_type n fuel (dir d) = send_dir d
  send_file_type n fuel (file entry f) = view_file n fuel entry f

-- `if let CardState::Active { .. }`, with nothing behind it.
abbrev pub when_active :
    {I D V W : Type 0} → Act I (V × W) (Unit {0}) → Act I (CardState D V × W) (Unit {0})
when_active m (no_card device, w) = ok tt (no_card device, w)
when_active m (active s vol, w) = on_session vol (m (s, w))
when_active m (processing, w) = ok tt (processing, w)

module _ {I D V W : Type 0} (vm : VolumeManager V) (writer : ChunkWriter I W) (texts : Texts) where
  -- `FsIterChunks::write_chunks`. The handle is closed only where every write succeeded.
  unfoldable pub write_fs_chunks :
      ℕ → ℕ → Result FManError FileType → Act I (CardState D V × W) (Unit {0})
  write_fs_chunks n fuel (good t) = do
    when_active (send_file_type (lift_vm vm) (lift_writer writer) texts n fuel t)
    ignore (on_volume (close_file_type vm t))
    (lift_writer writer).finalize
  write_fs_chunks n fuel (bad e) = do
    (lift_writer writer).write_chunk (codes "error: " ++ texts.debug_error e)
    (lift_writer writer).finalize

  -- `handle_fs`, and the sending of the body that it returns.
  unfoldable pub handle_fs : ℕ → ℕ → Bytes → Act I (CardState D V × W) (Unit {0})
  handle_fs n fuel path = attempt (on_volume (resolve_path_iter vm path)) >>= write_fs_chunks n fuel
