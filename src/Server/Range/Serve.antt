-- ===== src/Server/Range/Serve.antt =====
-- `HandleRangeAsync` and `RangeState::write_chunks` of server/src/range.rs.
pub mod Sends
pub mod Panics
use esp32_music_server.Prelude.{ℕ, suc, Bytes}
use esp32_music_server.Run.{Act, Result, pure, map_err, attempt, ignore, ◌>>=◌, ◌>>◌}
use esp32_music_server.Std.Usize.{as_u32}
use esp32_music_server.Sdmmc.{RawDirectory, RawFile, VolumeManager, scoped_file}
use esp32_music_server.FileManager.{FManError, sd_err, CardState}
use esp32_music_server.Server.Writer.{ChunkWriter, lift_vm, lift_writer, write_if_active}
use esp32_music_server.Server.Stream.{send_loop}
use esp32_music_server.Server.Range.Request.{RangeState}

module _ {I S : Type 0} (vm : VolumeManager S) (writer : ChunkWriter I S) where
  -- `buf` is what `statics::get_buf` hands out: the buffer with whatever was left in it. The loop
  -- sends a byte at least in each round, so that its fuel is one more than the length.
  unfoldable pub send_range :
      RangeState → Bytes → RawDirectory → Act FManError S (Result I (Unit {0}))
  unfolding send_loop
  send_range state buf root = do
    map_err sd_err (vm.close_dir root)
    scoped_file vm state.raw_file (do
      map_err sd_err (vm.seek_from_start state.raw_file (as_u32 state.start))
      send_loop vm writer state.raw_file state.len (suc state.len) 0 buf
      attempt writer.finalize)

unfoldable pub write_range :
    {I D V W : Type 0}
    → VolumeManager V
    → ChunkWriter I W
    → RangeState
    → Bytes
    → Act I (CardState D V × W) (Unit {0})
unfolding send_range
write_range vm writer state buf =
    write_if_active vm writer (send_range (lift_vm vm) (lift_writer writer) state buf)
