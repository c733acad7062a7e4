-- ===== src/Server/Stream.antt =====
-- The sending loop that server/src/range.rs and server/src/chunk.rs share, and the laws of the
-- volume manager and of the connection that it rests on.
pub mod Laws
pub mod Sends
use esp32_music_server.Prelude.{
  ℕ, zero, suc, ◌+◌, ◌-◌, min, Bytes, codes, ◌++◌, length, take, drop, ltb, if◌then◌else◌,
}
use esp32_music_server.Run.{Act, pure, map_err, hang, ◌>>=◌, ◌>>◌}
use esp32_music_server.Sdmmc.{RawFile, VolumeManager}
use esp32_music_server.FileManager.{FManError, sd_err, server_err}
use esp32_music_server.Server.Writer.{ChunkWriter}

-- `BUF_SIZE` of server/src/statics.rs.
abbrev pub buf_size : ℕ
buf_size = 2048

-- The buffer where `file.read(&mut buf[..n])` has read `bs` into its front.
abbrev pub read_into : Bytes → Bytes → Bytes
read_into bs buf = bs ++ drop (length bs) buf

-- `while bytes_sent < limit`, on fuel: each round sends a chunk of the buffer's length at most. The
-- number of bytes that `read` returns is not looked at.
module _ {I S : Type 0} (vm : VolumeManager S) (writer : ChunkWriter I S) (f : RawFile)
    (limit : ℕ) where
  unfoldable pub send_loop : ℕ → (bytes_sent : ℕ) (buf : Bytes) → Act FManError S (Unit {0})
  send_loop zero bytes_sent buf = hang
  send_loop (suc fuel) bytes_sent buf =
      if ltb bytes_sent limit
      then (do
        let chunk_size = min (limit - bytes_sent) (length buf)
        bs ← map_err sd_err (vm.read f chunk_size)
        map_err (λ _. server_err (codes "unable to write chunk"))
            (writer.write_chunk (take chunk_size (read_into bs buf)))
        send_loop fuel (bytes_sent + chunk_size) (read_into bs buf))
      else pure tt
