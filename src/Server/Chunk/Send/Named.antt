-- ===== src/Server/Chunk/Send/Named.antt =====
-- The file that `handle_get_chunk` of server/src/chunk.rs answers with: the one of the name.
use esp32_music_server.Prelude.{ℕ, ◌≡◌, refl, [], ◌∷◌, Bytes}
use esp32_music_server.Run.{Out, Ensures, returns, fails, Ensures-bind, Ensures-map_err}
use esp32_music_server.Sdmmc.{RawFile, RawVolume, VolumeManager}
use esp32_music_server.Sdmmc.Store.{FullPath, StoreLaws, ReadLaws}
use esp32_music_server.FileManager.{
  FManError, sd_err, CardState, no_card, active, processing, with_root_dir, root_dir,
}
use esp32_music_server.FileManager.OnCard.{OnCard, Ensures-on_card}
use esp32_music_server.Server.Range.Request.Named.{
  card_fails, Refused, IsOpened, open_requested-IsOpened,
}
use esp32_music_server.Server.Chunk.Send.{
  GetChunkReply, chunk, internal_server_error, respond, handle_get_chunk,
}

module _ {V : Type 0} {vm : VolumeManager V} (laws : StoreLaws vm) (reads : ReadLaws laws) where
  -- The reply has the file of the name and the asked number; no text has changed.
  abbrev pub Opened : Bytes → FullPath → ℕ → V → GetChunkReply → V → Type 0
  Opened dir k idx s (chunk state) s' =
      (state.idx ≡ idx) × IsOpened laws reads k s state.raw_file s'
  Opened dir k idx s (internal_server_error e) s' = Refused laws dir ⊥ s e s'

module _ {D V : Type 0} {vm : VolumeManager V} (laws : StoreLaws vm) (reads : ReadLaws laws) where
  respond-Opened :
      (dir : Bytes) (k : FullPath) (idx : ℕ) (s : V) (vol : RawVolume)
      {r : Out FManError (CardState D V) RawFile}
      → Ensures
          (λ f. OnCard vol (IsOpened laws reads k s f))
          (λ e. OnCard vol (Refused laws dir ⊥ s e))
          r
      → Ensures {E = FManError}
          (λ reply. OnCard vol (Opened laws reads dir k idx s reply))
          (λ _ _. ⊥)
          (respond idx r)
  respond-Opened dir k idx s vol (returns {s = no_card d} h) = absurd h
  respond-Opened dir k idx s vol (returns {s = processing} h) = absurd h
  respond-Opened dir k idx s vol (returns {s = active s' v} (h, e)) = returns ((refl, h), e)
  respond-Opened dir k idx s vol (fails h) = returns h

  -- A request for a chunk on an active card always gets a reply, and changes no text. It
  -- gets an error only if the card fails or the directory is not one of the two.
  pub handle_get_chunk-Opened :
      (dir id : Bytes) (idx : ℕ) (s : V) (vol : RawVolume)
      → Ensures {S = CardState D V}
          (λ reply. OnCard vol (Opened laws reads dir (id ∷ dir ∷ []) idx s reply))
          (λ _ _. ⊥)
          (handle_get_chunk vm dir id idx (active s vol))
  unfolding handle_get_chunk with_root_dir root_dir
  handle_get_chunk-Opened dir id idx s vol = respond-Opened dir (id ∷ dir ∷ []) idx s vol (
      Ensures-on_card vol (
        Ensures-bind _
          (Ensures-map_err sd_err (laws.open_root_opens vol s) (λ e _ g. (card_fails e, g)))
          (λ root a (at_root, same_a).
            open_requested-IsOpened laws reads dir ⊥ s root id a at_root same_a)))
