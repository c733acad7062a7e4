-- ===== src/Server/Chunk/Receive/Replies.antt =====
-- What a reply to a chunk says of the file of its name.
use esp32_music_server.Prelude.{ℕ, some, List, [], ◌∷◌, Bytes}
use esp32_music_server.Run.{Out, Ensures, returns, fails, Ensures-bind, Ensures-map_err}
use esp32_music_server.Std.Usize.{as_u32}
use esp32_music_server.Sdmmc.{RawVolume, VolumeManager}
use esp32_music_server.Sdmmc.Store.{FullPath, StoreLaws}
use esp32_music_server.FileManager.{
  FManError, sd_err, CardState, active, with_root_dir_async, root_dir,
}
use esp32_music_server.FileManager.OnCard.{OnCard, Ensures-on_card}
use esp32_music_server.Server.Chunk.{chunk_offset}
use esp32_music_server.Server.Chunk.Receive.{
  BodyRead, ChunkReply, count, bad_query, failure, chunk_reply, receive_chunks,
}
use esp32_music_server.Server.Chunk.Receive.Stores.{Stored, receive_chunk-Stored}

-- Behind a reply with a number the whole body stands in the file.
abbrev pub StoredReply :
    {V : Type 0} {vm : VolumeManager V}
    → StoreLaws vm
    → ℕ
    → FullPath
    → ℕ
    → List BodyRead
    → V
    → ChunkReply
    → V
    → Type 0
StoredReply laws modulus k p body s (count n) s' = Stored laws modulus k p body s n s'
StoredReply laws modulus k p body s bad_query s' = Unit {0}
StoredReply laws modulus k p body s (failure e) s' = Unit {0}

module _ {D V : Type 0} {vm : VolumeManager V} (laws : StoreLaws vm) (modulus : ℕ) (dir id : Bytes)
    (vol : RawVolume) where
  replied :
      (k : FullPath) (p : ℕ) (body : List BodyRead) (s : V)
      {r : Out FManError (CardState D V) Bytes}
      → Ensures
          (λ n. OnCard vol (Stored laws modulus k p body s n))
          (λ _. OnCard vol (λ _. Unit {0}))
          r
      → Ensures {E = FManError}
          (λ reply. OnCard vol (StoredReply laws modulus k p body s reply))
          (λ _ _. ⊥)
          (chunk_reply r)
  replied k p body s (returns h) = returns h
  replied k p body s (fails h) = returns h

  pub receive_chunks-Stored :
      (idx : ℕ) (body : List BodyRead) (s : V)
      → Ensures {S = CardState D V}
          (λ reply. OnCard vol (
            StoredReply laws modulus
              (id ∷ dir ∷ [])
              (as_u32 (chunk_offset modulus idx))
              body
              s
              reply))
          (λ _ _. ⊥)
          (receive_chunks vm modulus (some (record { id = id; idx = idx })) body dir (active s vol))
  unfolding receive_chunks with_root_dir_async root_dir
  receive_chunks-Stored idx body s = replied _ _ body s (
      Ensures-on_card vol (
        Ensures-bind _ (Ensures-map_err sd_err (laws.open_root_opens vol s) (λ _ _ _. tt))
          (λ root a (at_root, same_texts).
            receive_chunk-Stored laws modulus (record { id = id; idx = idx }) body dir root s a
              at_root same_texts)))
