-- ===== src/Server/Range/Request.antt =====
-- `handle_range_request` of server/src/range.rs: a file is opened, and a window of it planned.
pub mod Window
pub mod Opening
pub mod Named
use esp32_music_server.Prelude.{
  ℕ, ◌+◌, ◌-◌, ◌*◌, min, Bool, true, false, not, ◌&&◌, List, [], ◌∷◌, ◌++◌, Bytes, codes, same, leb,
  if◌then◌else◌,
}
use esp32_music_server.Run.{
  Out, ok, err, panic, hang, Act, pure, fail, map_err, ignore, then_drop, on_error, ◌>>=◌, ◌>>◌,
}
use esp32_music_server.Std.Decimal.{to_string}
use esp32_music_server.Std.Usize.{add_usize, sub_usize}
use esp32_music_server.Sdmmc.{RawDirectory, RawFile, VolumeManager, read_only, scoped_dir}
use esp32_music_server.FileManager.{
  FManError, sd_err, server_err, CardState, Fm, music_dir, files_dir, with_root_dir,
}

-- The test of every handler that takes the name of a directory.
abbrev pub invalid_dir : Bytes → Bool
invalid_dir name = not (same name music_dir) && not (same name files_dir)

pub record RangeState : Type 0 where
  pub raw_file : RawFile
  pub start : ℕ
  pub len : ℕ

abbrev pub Header : Type 0
Header = Bytes × Bytes

-- The response: the window with the status 206 and its headers, or the error with the status 500.
pub data RangeReply : Type 0 where
  partial_content : RangeState → List Header → RangeReply
  internal_server_error : FManError → RangeReply

abbrev pub chunk_size : ℕ
chunk_size = 16 * 1024

-- `format!("bytes {}-{}/{}", start, end, total)`.
unfoldable pub content_range : ℕ → ℕ → ℕ → Bytes
content_range start end total =
    codes "bytes " ++ to_string start ++ codes "-" ++ to_string end ++ codes "/" ++ to_string total

-- `modulus` is that of `usize`.
module _ (modulus : ℕ) where
  unfoldable pub range_end : ℕ → ℕ → ℕ
  range_end start total = min (sub_usize modulus (add_usize modulus start chunk_size) 1) (total - 1)

  unfoldable pub range_len : ℕ → ℕ → ℕ
  unfolding range_end
  range_len start total = add_usize modulus (sub_usize modulus (range_end start total) start) 1

  -- The part behind the file's length.
  unfoldable pub plan : {V : Type 0} → RawFile → ℕ → ℕ → Act FManError V RangeReply
  unfolding range_end range_len
  plan f start total =
      if leb total start
      then fail (server_err (codes "range out of bounds"))
      else pure (
          partial_content (record { raw_file = f; start = start; len = range_len start total })
            ((codes "Accept-Ranges", codes "bytes")
              ∷ (codes "Content-Length", to_string (range_len start total))
              ∷ (codes "Content-Range", content_range start (range_end start total) total)
              ∷ []))

module _ {V : Type 0} (vm : VolumeManager V) where
  -- `root_dir` and `music_dir` are closed by `close` in the end, and by their destructors where an
  -- error leaves the function before.
  unfoldable pub open_requested : RawDirectory → Bytes → Bytes → Act FManError V RawFile
  open_requested root dir_name id =
      let drop_root = ignore (vm.close_dir root) in
      if invalid_dir dir_name
      then on_error (fail (server_err (codes "invalid dir name"))) drop_root
      else (do
        music ← on_error (map_err sd_err (vm.open_dir root dir_name)) drop_root
        f ←
            on_error
              (on_error (map_err sd_err (vm.open_file_in_dir music id read_only))
                (ignore (vm.close_dir music)))
              drop_root
        on_error (map_err sd_err (vm.close_dir music)) drop_root
        map_err sd_err (vm.close_dir root)
        pure f)

  unfoldable pub range_action : ℕ → Bytes → Bytes → ℕ → RawDirectory → Act FManError V RangeReply
  unfolding open_requested plan
  range_action modulus dir_name id start root = do
    f ← open_requested root dir_name id
    total ← map_err sd_err (vm.file_length f)
    plan modulus f start total

-- `map_err` of the handler: every error becomes a response.
abbrev respond : {S : Type 0} → Out FManError S RangeReply → Out FManError S RangeReply
respond (ok r s) = ok r s
respond (err e s) = ok (internal_server_error e) s
respond (panic s) = panic s
respond (hang s) = hang s

unfoldable pub handle_range_request :
    {D V : Type 0} → VolumeManager V → ℕ → Bytes → Bytes → ℕ → Fm D V RangeReply
unfolding with_root_dir range_action
handle_range_request vm modulus dir_name id start s =
    respond (with_root_dir vm (range_action vm modulus dir_name id start) s)
