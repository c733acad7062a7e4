-- ===== src/Server/Chunk/Receive.antt =====
-- `HandleChunkAsync` and `receive_chunks` of server/src/chunk.rs.
pub mod Handles
pub mod Writes
pub mod Stores
pub mod Replies
pub mod Assembles
use esp32_music_server.Prelude.{ℕ, Option, none, some, List, [], ◌∷◌, Bytes, codes, length}
use esp32_music_server.Run.{Out, ok, err, panic, hang, Act, pure, fail, map_err, ◌>>=◌, ◌>>◌}
use esp32_music_server.Std.Decimal.{to_string}
use esp32_music_server.Std.Usize.{add_usize, as_u32}
use esp32_music_server.Sdmmc.{
  RawDirectory, RawFile, VolumeManager, read_write_append, scoped_dir, scoped_file,
}
use esp32_music_server.FileManager.{FManError, sd_err, server_err, Fm, with_root_dir_async}
use esp32_music_server.Server.Chunk.{chunk_offset}

pub record ChunkQuery : Type 0 where
  pub id : Bytes
  pub idx : ℕ

-- What `reader.read` returns from call to call; behind the last one it returns 0.
pub data BodyRead : Type 0 where
  received : Bytes → BodyRead
  failed : BodyRead

module _ {V : Type 0} (vm : VolumeManager V) where
  -- The count is a usize, whose additions wrap around at the modulus.
  unfoldable pub receive_loop : ℕ → RawFile → List BodyRead → ℕ → Act FManError V ℕ
  receive_loop modulus f [] read = pure read
  receive_loop modulus f (failed ∷ body) read = fail (server_err (codes "error while reading body"))
  receive_loop modulus f (received [] ∷ body) read = pure read
  receive_loop modulus f (received (b ∷ bs) ∷ body) read = do
    map_err sd_err (vm.write f (b ∷ bs))
    receive_loop modulus f body (add_usize modulus read (length (b ∷ bs)))

  -- The file, the directory and the root are wrapped, and closed in that order.
  unfoldable pub receive_chunk :
      ℕ → ChunkQuery → List BodyRead → Bytes → RawDirectory → Act FManError V Bytes
  receive_chunk modulus query body file_dir_name root = scoped_dir vm root (do
    music ← map_err sd_err (vm.open_dir root file_dir_name)
    scoped_dir vm music (do
      f ← map_err sd_err (vm.open_file_in_dir music query.id read_write_append)
      scoped_file vm f (do
        map_err sd_err (vm.seek_from_start f (as_u32 (chunk_offset modulus query.idx)))
        read ← receive_loop modulus f body 0
        map_err sd_err (vm.flush_file f)
        pure (to_string read))))

-- The reply: the number of bytes read, or the text of an error.
pub data ChunkReply : Type 0 where
  count : Bytes → ChunkReply
  bad_query : ChunkReply
  failure : FManError → ChunkReply

abbrev chunk_reply : {S : Type 0} → Out FManError S Bytes → Out FManError S ChunkReply
chunk_reply (ok n s) = ok (count n) s
chunk_reply (err e s) = ok (failure e) s
chunk_reply (panic s) = panic s
chunk_reply (hang s) = hang s

-- The query is `none` where the request has none or it cannot be read.
unfoldable pub receive_chunks :
    {D V : Type 0}
    → VolumeManager V
    → ℕ
    → Option ChunkQuery
    → List BodyRead
    → Bytes
    → Fm D V ChunkReply
unfolding with_root_dir_async receive_chunk
receive_chunks vm modulus none body dir s = ok bad_query s
receive_chunks vm modulus (some query) body dir s =
    chunk_reply (with_root_dir_async vm (receive_chunk vm modulus query body dir) s)
