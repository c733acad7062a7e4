-- ===== src/Server/Chunk/Send.antt =====
-- `handle_get_chunk`, `HandleGetChunkAsync` and `GetChunkState::write_chunks` of
-- server/src/chunk.rs.
pub mod Sends
pub mod Named
use esp32_music_server.Prelude.{ℕ, suc, ◌-◌, ◌*◌, min, Bytes, leb, if◌then◌else◌}
use esp32_music_server.Run.{
  unwrap, Out, ok, err, panic, hang, Act, Result, pure, map_err, attempt, ◌>>=◌, ◌>>◌,
}
use esp32_music_server.Std.Usize.{as_u32}
use esp32_music_server.Sdmmc.{SdError, RawDirectory, RawFile, VolumeManager, scoped_file}
use esp32_music_server.FileManager.{FManError, sd_err, CardState, Fm, with_root_dir}
use esp32_music_server.Server.Writer.{ChunkWriter, lift_vm, lift_writer, write_if_active}
use esp32_music_server.Server.Stream.{send_loop}
use esp32_music_server.Server.Range.Request.{open_requested}
use esp32_music_server.Server.Chunk.{chunk_offset}

abbrev pub total_to_send : ℕ
total_to_send = 16 * 1024

pub record GetChunkState : Type 0 where
  pub raw_file : RawFile
  pub idx : ℕ

module _ {I S : Type 0} (vm : VolumeManager S) (writer : ChunkWriter I S) where
  -- The part behind the file's length.
  unfoldable pub send_window : RawFile → ℕ → ℕ → Bytes → Act FManError S (Result I (Unit {0}))
  unfolding send_loop
  send_window f offset file_len buf = if leb file_len offset then attempt writer.finalize else (do
    map_err sd_err (vm.seek_from_start f (as_u32 offset))
    let limit = min total_to_send (file_len - offset)
    send_loop vm writer f limit (suc limit) 0 buf
    attempt writer.finalize)

  -- `File::length` panics where the call fails.
  unfoldable pub send_chunk :
      ℕ → GetChunkState → Bytes → RawDirectory → Act FManError S (Result I (Unit {0}))
  send_chunk modulus state buf root = do
    map_err sd_err (vm.close_dir root)
    scoped_file vm state.raw_file (do
      file_len ← (λ s. unwrap (vm.file_length state.raw_file s))
      send_window state.raw_file (chunk_offset modulus state.idx) file_len buf)

unfoldable pub write_chunk_response :
    {I D V W : Type 0}
    → VolumeManager V
    → ChunkWriter I W
    → ℕ
    → GetChunkState
    → Bytes
    → Act I (CardState D V × W) (Unit {0})
unfolding send_chunk
write_chunk_response vm writer modulus state buf =
    write_if_active vm writer (send_chunk (lift_vm vm) (lift_writer writer) modulus state buf)

-- The reply: the state of the response, or the error with the status 500.
pub data GetChunkReply : Type 0 where
  chunk : GetChunkState → GetChunkReply
  internal_server_error : FManError → GetChunkReply

abbrev respond : {S : Type 0} → ℕ → Out FManError S RawFile → Out FManError S GetChunkReply
respond idx (ok f s) = ok (chunk (record { raw_file = f; idx = idx })) s
respond idx (err e s) = ok (internal_server_error e) s
respond idx (panic s) = panic s
respond idx (hang s) = hang s

unfoldable pub handle_get_chunk :
    {D V : Type 0} → VolumeManager V → Bytes → Bytes → ℕ → Fm D V GetChunkReply
unfolding with_root_dir open_requested
handle_get_chunk vm dir_name id idx s =
    respond idx (with_root_dir vm (λ root. open_requested vm root dir_name id) s)
