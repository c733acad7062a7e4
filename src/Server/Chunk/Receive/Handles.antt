-- ===== src/Server/Chunk/Receive/Handles.antt =====
-- A received chunk leaves no handle open.
use esp32_music_server.Prelude.{ℕ, refl, Option, none, some, List, [], ◌∷◌, Bytes}
use esp32_music_server.Run.{Out, Ensures, returns, fails, Ensures-bind, Ensures-map_err}
use esp32_music_server.Sdmmc.{RawDirectory, RawFile, RawVolume, VolumeManager, read_write_append}
use esp32_music_server.Sdmmc.Handles.{Opens, HandleLaws}
use esp32_music_server.Sdmmc.Rules.{
  Leaves, Opens-refl, rule_open_dir, rule_open_file, rule-Keeps, rule_scoped_dir, rule_scoped_file,
}
use esp32_music_server.FileManager.{FManError, sd_err, CardState, active}
use esp32_music_server.FileManager.OnCard.{OnCard, Ensures-with_root_dir_async}
use esp32_music_server.Server.Chunk.Receive.{
  ChunkQuery, BodyRead, received, failed, receive_loop, receive_chunk, chunk_reply, receive_chunks,
}

module _ {V : Type 0} {vm : VolumeManager V} (laws : HandleLaws vm) (ds : List RawDirectory)
    (fs : List RawFile) where
  receive_loop-handles :
      (modulus : ℕ) (f : RawFile) (body : List BodyRead) (read : ℕ) (s : V)
      → Opens laws.tables s ds fs
      → Leaves laws.tables ds fs (receive_loop vm modulus f body read s)
  unfolding receive_loop
  receive_loop-handles modulus f [] read s h = returns h
  receive_loop-handles modulus f (failed ∷ body) read s h = fails h
  receive_loop-handles modulus f (received [] ∷ body) read s h = returns h
  receive_loop-handles modulus f (received (b ∷ bs) ∷ body) read s h =
      Ensures-bind _
        (Ensures-map_err sd_err
          (rule-Keeps laws h (vm.write f (b ∷ bs)) (laws.write_keeps f (b ∷ bs))) (λ _ _ g. g))
        (λ _ s₁ h₁. receive_loop-handles modulus f body _ s₁ h₁)

module _ {V : Type 0} {vm : VolumeManager V} (laws : HandleLaws vm) {ds : List RawDirectory}
    {fs : List RawFile} where
  pub receive_chunk-handles :
      (modulus : ℕ) (query : ChunkQuery) (body : List BodyRead) (dir : Bytes) (root : RawDirectory)
      (s : V)
      → Opens laws.tables s (root ∷ ds) fs
      → Leaves laws.tables ds fs (receive_chunk vm modulus query body dir root s)
  unfolding receive_chunk
  receive_chunk-handles modulus query body dir root s h = rule_scoped_dir laws root (
      Ensures-bind _ (Ensures-map_err sd_err (rule_open_dir laws h root dir) (λ _ _ g. g))
        (λ music s₁ (h₁, _). rule_scoped_dir laws music (
          Ensures-bind _
            (Ensures-map_err sd_err (rule_open_file laws h₁ music query.id read_write_append)
              (λ _ _ g. g))
            (λ f s₂ (h₂, _). rule_scoped_file laws f (
              Ensures-bind _
                (Ensures-map_err sd_err
                  (rule-Keeps laws h₂ (vm.seek_from_start f _) (laws.seek_keeps f _)) (λ _ _ g. g))
                (λ _ s₃ h₃.
                  Ensures-bind _ (receive_loop-handles laws _ _ modulus f body 0 s₃ h₃) (λ n s₄ h₄.
                    Ensures-bind _
                      (Ensures-map_err sd_err
                        (rule-Keeps laws h₄ (vm.flush_file f) (laws.flush_keeps f)) (λ _ _ g. g))
                      (λ _ s₅ h₅. returns h₅))))))))

Ensures-chunk_reply :
    {S : Type 0} {P : S → Type 0} {r : Out FManError S Bytes}
    → Ensures (λ _ s. P s) (λ _ s. P s) r
    → Ensures {E = FManError} (λ _ s. P s) (λ _ _. ⊥) (chunk_reply r)
Ensures-chunk_reply (returns h) = returns h
Ensures-chunk_reply (fails h) = returns h

-- A chunk upload on an active card always gets a reply, and leaves exactly the handles open that
-- were open before: whatever the query, the body and the errors on the way.
pub receive_chunks-handles :
    {D V : Type 0} {vm : VolumeManager V} (laws : HandleLaws vm) (modulus : ℕ)
    (query : Option ChunkQuery) (body : List BodyRead) (dir : Bytes) (s : V) (vol : RawVolume)
    → Ensures {S = CardState D V}
        (λ _. OnCard vol (λ s'. Opens laws.tables s' (laws.tables.dirs s) (laws.tables.files s)))
        (λ _ _. ⊥)
        (receive_chunks vm modulus query body dir (active s vol))
unfolding receive_chunks
receive_chunks-handles laws modulus none body dir s vol = returns (Opens-refl s, refl)
receive_chunks-handles {vm} laws modulus (some query) body dir s vol = Ensures-chunk_reply (
    Ensures-with_root_dir_async laws (receive_chunk vm modulus query body dir) s vol (λ _ _ h. h)
      (λ root s' h. receive_chunk-handles laws modulus query body dir root s' h))
