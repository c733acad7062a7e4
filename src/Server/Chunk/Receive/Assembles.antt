-- ===== src/Server/Chunk/Receive/Assembles.antt =====
-- The chunks of an upload, one after the other, as the page of server/src/htm/list.htm sends them.
use mathlib.Core.Path.{subst}
use esp32_music_server.Prelude.{
  ℕ, suc, ◌+◌, ◌*◌, ◌≤◌, ◌<◌, ◌≡◌, refl, sym, ap, ◌∙◌, Bool, true, false, some, List, [], ◌∷◌, ◌++◌,
  append-nil, append_assoc, Bytes, length, length-append, arith,
}
use esp32_music_server.Run.{Ensures, returns, Ensures-bind_sure, Ensures-weaken, pure, ◌>>=◌}
use esp32_music_server.Std.Usize.{as_u32}
use esp32_music_server.Sdmmc.{RawVolume, VolumeManager}
use esp32_music_server.Sdmmc.Contents.{overwrite_end}
use esp32_music_server.Sdmmc.Store.{StoreLaws}
use esp32_music_server.FileManager.{FManError, Fm, CardState, no_card, active, processing}
use esp32_music_server.FileManager.OnCard.{OnCard}
use esp32_music_server.Server.Chunk.{chunk_offset}
use esp32_music_server.Server.Chunk.Receive.{
  BodyRead, ChunkReply, count, bad_query, failure, receive_chunks,
}
use esp32_music_server.Server.Chunk.Receive.Writes.{body_text}
use native.Mathlib.Nat.{mod-eq_of_lt}
use esp32_music_server.Server.Chunk.Send.Sends.{chunk_offset_lem}
use esp32_music_server.Server.Chunk.Receive.Stores.{Stored}
use esp32_music_server.Server.Chunk.Receive.Replies.{StoredReply, receive_chunks-Stored}

abbrev if_counted : {D V : Type 0} → Fm D V Bool → ChunkReply → Fm D V Bool
if_counted again (count n) = again
if_counted again bad_query = pure false
if_counted again (failure e) = pure false

-- The chunks from a number on, until one gets no number: did all get one?
unfoldable pub upload :
    {D V : Type 0} → VolumeManager V → ℕ → Bytes → Bytes → ℕ → List (List BodyRead) → Fm D V Bool
unfolding receive_chunks
upload vm modulus dir id idx [] = pure true
upload vm modulus dir id idx (body ∷ bodies) =
    receive_chunks vm modulus (some (record { id = id; idx = idx })) body dir
    >>= if_counted (upload vm modulus dir id (suc idx) bodies)

-- The texts of the chunks, put together.
unfoldable pub whole_text : List (List BodyRead) → Bytes
whole_text [] = []
whole_text (body ∷ bodies) = body_text body ++ whole_text bodies

-- Every chunk but the last has 16 KiB.
unfoldable pub IsChunked : List (List BodyRead) → Type 0
IsChunked [] = Unit {0}
IsChunked (body ∷ []) = Unit {0}
IsChunked (body ∷ (next ∷ bodies)) = (length (body_text body) ≡ 16384) × IsChunked (next ∷ bodies)

-- The file ends where the first of the chunks begins.
abbrev IsNext : ℕ → List (List BodyRead) → Bytes → Type 0
IsNext idx [] c = Unit {0}
IsNext idx (body ∷ bodies) c = length c ≡ idx * 16384

IsNext-behind :
    (idx : ℕ) (body : List BodyRead) (bodies : List (List BodyRead)) (c : Bytes)
    → length c ≡ idx * 16384
    → IsChunked (body ∷ bodies)
    → IsNext (suc idx) bodies (c ++ body_text body)
unfolding IsChunked
IsNext-behind idx body [] c h full = tt
IsNext-behind idx body (next ∷ bodies) c h full =
    omega (arith, h, full.0, length-append c (body_text body))

IsChunked-tail :
    (body : List BodyRead) (bodies : List (List BodyRead))
    → IsChunked (body ∷ bodies)
    → IsChunked bodies
unfolding IsChunked
IsChunked-tail body [] full = tt
IsChunked-tail body (next ∷ bodies) full = full.1

module _ {V : Type 0} {vm : VolumeManager V} (laws : StoreLaws vm) (modulus : ℕ) (dir id : Bytes)
    (machine : 4294967296 ≤ modulus) where
  appended :
      (idx : ℕ) (body : List BodyRead) (n : Bytes) (s s' : V)
      → length (laws.view.stored s (id ∷ dir ∷ [])) ≡ idx * 16384
      → idx * 16384 < 4294967296
      → Stored laws modulus (id ∷ dir ∷ []) (as_u32 (chunk_offset modulus idx)) body s n s'
      → laws.view.stored s' (id ∷ dir ∷ []) ≡ laws.view.stored s (id ∷ dir ∷ []) ++ body_text body
  appended idx body n s s' at_end small (whole, total, fits, text) =
      let start : as_u32 (chunk_offset modulus idx) ≡ idx * 16384 =
        ap as_u32 (chunk_offset_lem modulus idx (omega (arith, small, machine)))
        ∙ mod-eq_of_lt small in
      text
      ∙ overwrite_end _ (body_text body) (laws.view.stored s (id ∷ dir ∷ [])) (start ∙ sym at_end)

module _ {D V : Type 0} {vm : VolumeManager V} (laws : StoreLaws vm) (modulus : ℕ) (dir id : Bytes)
    (vol : RawVolume) (machine : 4294967296 ≤ modulus) where
  -- If all chunks got a number, the file has their texts behind what it had.
  abbrev pub Assembled : Bytes → List (List BodyRead) → Bool → CardState D V → Type 0
  Assembled c bodies done =
      OnCard vol (λ s'. done ≡ true → laws.view.stored s' (id ∷ dir ∷ []) ≡ c ++ whole_text bodies)

  -- What goes on behind a reply.
  go_on :
      (again : Fm D V Bool) (body : List BodyRead) (bodies : List (List BodyRead)) (idx : ℕ) (s : V)
      → length (laws.view.stored s (id ∷ dir ∷ [])) ≡ idx * 16384
      → idx * 16384 < 4294967296
      → ((s' : V)
          → laws.view.stored s' (id ∷ dir ∷ [])
            ≡ laws.view.stored s (id ∷ dir ∷ []) ++ body_text body
          → Ensures {E = FManError}
              (Assembled (laws.view.stored s' (id ∷ dir ∷ [])) bodies)
              (λ _ _. ⊥)
              (again (active s' vol)))
      → (reply : ChunkReply) (c : CardState D V)
      → OnCard vol
          (StoredReply laws modulus
            (id ∷ dir ∷ [])
            (as_u32 (chunk_offset modulus idx))
            body
            s
            reply)
          c
      → Ensures {E = FManError}
          (Assembled (laws.view.stored s (id ∷ dir ∷ [])) (body ∷ bodies))
          (λ _ _. ⊥)
          (if_counted again reply c)
  unfolding whole_text
  go_on again body bodies idx s at_end small k reply (no_card d) g = absurd g
  go_on again body bodies idx s at_end small k reply processing g = absurd g
  go_on again body bodies idx s at_end small k bad_query (active s' v) (g, e) =
      returns ((λ h. absurd (ground (arith, h))), e)
  go_on again body bodies idx s at_end small k (failure x) (active s' v) (g, e) =
      returns ((λ h. absurd (ground (arith, h))), e)
  go_on again body bodies idx s at_end small k (count n) (active s' v) (g, e) =
      let text = appended laws modulus dir id machine idx body n s s' at_end small g in
      rw e (Ensures-weaken (k s' text) (λ done c h. further done c h text) (λ _ _ never. never))
    where
      further :
          (done : Bool) (c : CardState D V)
          → Assembled (laws.view.stored s' (id ∷ dir ∷ [])) bodies done c
          → laws.view.stored s' (id ∷ dir ∷ [])
            ≡ laws.view.stored s (id ∷ dir ∷ []) ++ body_text body
          → Assembled (laws.view.stored s (id ∷ dir ∷ [])) (body ∷ bodies) done c
      further done (no_card d) h text = h
      further done processing h text = h
      further done (active z w) (h, e') text = (
        (λ all.
            h all
            ∙ ap (λ t. t ++ whole_text bodies) text
            ∙ append_assoc _ (body_text body) (whole_text bodies)),
        e',
      )

  pub upload-Assembled :
      (bodies : List (List BodyRead)) (idx : ℕ) (s : V)
      → IsNext idx bodies (laws.view.stored s (id ∷ dir ∷ []))
      → IsChunked bodies
      → (idx + length bodies) * 16384 ≤ 4294967296
      → Ensures {E = FManError}
          (Assembled (laws.view.stored s (id ∷ dir ∷ [])) bodies)
          (λ _ _. ⊥)
          (upload vm modulus dir id idx bodies (active s vol))
  unfolding upload whole_text
  upload-Assembled [] idx s at_end full small = returns ((λ _. sym (append-nil _)), refl)
  upload-Assembled (body ∷ bodies) idx s at_end full small =
      Ensures-bind_sure _ (receive_chunks-Stored laws modulus dir id vol idx body s) (λ reply c g.
        go_on (upload vm modulus dir id (suc idx) bodies) body bodies idx s at_end
          (omega (arith, small))
          (λ s' text.
            upload-Assembled bodies (suc idx) s'
              (subst (IsNext (suc idx) bodies) (sym text)
                (IsNext-behind idx body bodies (laws.view.stored s (id ∷ dir ∷ [])) at_end full))
              (IsChunked-tail body bodies full) (omega (arith, small)))
          reply c g)

-- The chunks of an upload assemble the file: where the page sends the chunks of a file in order from
-- the first on, to an empty file on an active card, and each gets a number for a reply, the file has
-- their texts, put together, and nothing else. The upload ends, also where a chunk gets an error for a
-- reply; the server neither panics nor waits for ever. Every chunk but the last has 16 KiB, the
-- file fits an u32, and usize has 32 bits or more.
pub upload-assembles :
    {D V : Type 0} {vm : VolumeManager V} (laws : StoreLaws vm) (modulus : ℕ) (dir id : Bytes)
    (vol : RawVolume)
    → 4294967296 ≤ modulus
    → (bodies : List (List BodyRead)) (s : V) → laws.view.stored s (id ∷ dir ∷ []) ≡ []
    → IsChunked bodies
    → length bodies * 16384 ≤ 4294967296
    → Ensures {S = CardState D V}
        (λ done.
          OnCard vol (λ s'. done ≡ true → laws.view.stored s' (id ∷ dir ∷ []) ≡ whole_text bodies))
        (λ _ _. ⊥)
        (upload vm modulus dir id 0 bodies (active s vol))
upload-assembles {D} {vm} laws modulus dir id vol machine bodies s empty full small =
    Ensures-weaken
      (upload-Assembled laws modulus dir id vol machine bodies 0 s (at_start bodies) full
        (omega (arith, small)))
      (λ done c h. from_empty done c h) (λ _ _ never. never)
  where
    at_start : (bs : List (List BodyRead)) → IsNext 0 bs (laws.view.stored s (id ∷ dir ∷ []))
    at_start [] = tt
    at_start (b ∷ bs) = ap length empty

    from_empty :
        (done : Bool) (c : CardState D _)
        → Assembled laws modulus dir id vol machine
            (laws.view.stored s (id ∷ dir ∷ []))
            bodies
            done
            c
        → OnCard vol (λ s'. done ≡ true → laws.view.stored s' (id ∷ dir ∷ []) ≡ whole_text bodies) c
    from_empty done (no_card d) h = h
    from_empty done processing h = h
    from_empty done (active z w) (h, e) =
        ((λ all. h all ∙ ap (λ t. t ++ whole_text bodies) empty), e)
