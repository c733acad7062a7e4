-- ===== src/Server/Served.antt =====
-- The parts of the server put together: what server/src/chunk.rs has stored of an upload is what
-- server/src/range.rs and server/src/chunk.rs send of the file behind it.
use mathlib.Core.Path.{subst}
use esp32_music_server.Prelude.{
  ℕ, ◌+◌, ◌-◌, ◌*◌, ◌≤◌, ◌<◌, min, ◌≡◌, refl, ap, ◌∙◌, Option, none, some, Bool, true, false, List,
  [], ◌∷◌, Bytes, length, take, drop, arith,
}
use esp32_music_server.Run.{Out, Ensures, returns, fails, Ensures-bind_sure, pure, ◌>>=◌}
use esp32_music_server.Sdmmc.{RawFile, RawVolume, VolumeManager}
use esp32_music_server.Sdmmc.Store.{StoreLaws, ReadLaws}
use esp32_music_server.FileManager.{FManError, Fm, CardState, no_card, active, processing}
use esp32_music_server.FileManager.OnCard.{OnCard}
use esp32_music_server.Server.Writer.{ChunkWriter, lift_vm, lift_writer}
use esp32_music_server.Server.Stream.Laws.{StreamLaws}
use esp32_music_server.Server.Session.{Written}
use esp32_music_server.Server.Range.Request.{
  RangeReply, partial_content, internal_server_error, chunk_size, handle_range_request,
}
use esp32_music_server.Server.Range.Request.Named.{
  Refusal, window_headers, Planned, handle_range_request-Planned,
}
use esp32_music_server.Server.Range.Serve.{write_range}
use esp32_music_server.Server.Range.Serve.Sends.{write_range-Written}
use esp32_music_server.Server.Chunk.Receive.{BodyRead}
use esp32_music_server.Server.Chunk.Receive.Assembles.{
  IsChunked, upload, whole_text, upload-assembles,
}

-- What the server relies on to store files and to send them: an open file that is sent has the text
-- that is stored under its name.
pub record ServerLaws {I V W : Type 0} (vm : VolumeManager V) (writer : ChunkWriter I W)
    : Type 0 where
  pub store : StoreLaws vm
  pub reads : ReadLaws store
  pub stream : StreamLaws (lift_vm {W = W} vm) (lift_writer writer)
  pub one_text :
      (s : V) (w : W) (f : RawFile)
      → stream.views.content (s, w) f ≡ store.view.stored s (store.view.path s f)

module _ {D V : Type 0} (vm : VolumeManager V) (modulus : ℕ) (dir id : Bytes) where
  -- The file is asked for if its upload was answered with numbers only.
  abbrev if_done : ℕ → Bool → Fm D V (Option RangeReply)
  if_done start true = handle_range_request vm modulus dir id start >>= λ reply. pure (some reply)
  if_done start false = pure none

  abbrev pub upload_then_request : List (List BodyRead) → ℕ → Fm D V (Option RangeReply)
  upload_then_request bodies start = upload vm modulus dir id 0 bodies >>= if_done start

module _ (D : Type 0) {I V W : Type 0} {vm : VolumeManager V} {writer : ChunkWriter I W}
    (laws : ServerLaws vm writer) (modulus : ℕ) (dir id : Bytes) (vol : RawVolume) (buf : Bytes)
    (w : W) where
  -- Behind a window its headers tell where it lies in the text, and its body, over any connection,
  -- is that part of the text.
  abbrev pub ServesWindow : Bytes → ℕ → RangeReply → V → Type 0
  ServesWindow c start (partial_content state headers) s =
      (start < length c)
      × (headers ≡ window_headers start (min chunk_size (length c - start)) (length c))
      × Written {D = D} laws.stream.views vol (laws.stream.views.sent (s, w))
          (take (min chunk_size (length c - start)) (drop start c))
          (write_range vm writer state buf (active s vol, w))
  ServesWindow c start (internal_server_error e) s = Refusal dir (length c ≤ start) e

  Planned-ServesWindow :
      (start : ℕ) (s : V)
      → 0 < length buf
      → length (laws.store.view.stored s (id ∷ dir ∷ [])) < 4294967296
      → (reply : RangeReply) (s' : V)
      → Planned laws.store laws.reads dir (id ∷ dir ∷ []) start s reply s'
      → ServesWindow (laws.store.view.stored s (id ∷ dir ∷ [])) start reply s'
  Planned-ServesWindow start s room small (internal_server_error e) s' (why, h) = why
  Planned-ServesWindow start s room small (partial_content state headers) s'
        (named, start_is, inside, len_is, headers_are, same_texts) =
      (
        inside,
        headers_are ∙ ap (λ n. window_headers start n (length text)) len_is,
        subst
            (λ window.
              Written {D = D} laws.stream.views vol (laws.stream.views.sent (s', w)) window
                (write_range vm writer state buf (active s' vol, w)))
            (ap (λ n. take n (drop state.start text)) len_is
              ∙ ap (λ n. take (min chunk_size (length text - start)) (drop n text)) start_is)
            (write_range-Written D vm writer laws.stream state buf text s' w vol
              (laws.one_text s' w state.raw_file
                ∙ ap (laws.store.view.stored s') named
                ∙ same_texts (id ∷ dir ∷ []))
              (omega (arith, start_is, len_is, inside)) small room),
      )
    where
      text : Bytes
      text = laws.store.view.stored s (id ∷ dir ∷ [])

  Ensures-served :
      {A : Type 0} {P Q : A → V → Type 0} {r : Out FManError (CardState D V) A}
      → ((a : A) (s : V) → P a s → Q a s)
      → Ensures {E = FManError} (λ a. OnCard vol (P a)) (λ _ _. ⊥) r
      → Ensures {E = FManError} (λ a. OnCard vol (Q a)) (λ _ _. ⊥) r
  Ensures-served f (returns {s = no_card d} h) = absurd h
  Ensures-served f (returns {s = processing} h) = absurd h
  Ensures-served f (returns {s = active s v} (h, e)) = returns (f _ _ h, e)
  Ensures-served f (fails h) = absurd h

  -- A range request of a file that is stored gets a window of it.
  range-ServesWindow :
      (start : ℕ) (s : V) (c : Bytes)
      → laws.store.view.stored s (id ∷ dir ∷ []) ≡ c
      → length c < 4294967296
      → length c + chunk_size ≤ modulus
      → 0 < length buf
      → Ensures {E = FManError}
          (λ reply. OnCard {D = D} vol (ServesWindow c start reply))
          (λ _ _. ⊥)
          (handle_range_request vm modulus dir id start (active s vol))
  range-ServesWindow start s c text small room filled =
      Ensures-served
        (λ reply s' h.
          subst (λ t. ServesWindow t start reply s') text
            (Planned-ServesWindow start s filled (omega (arith, small, ap length text)) reply s' h))
        (handle_range_request-Planned laws.store laws.reads modulus dir id start s vol
          (omega (arith, room, ap length text)))

  abbrev pub Serves : Bytes → ℕ → Option RangeReply → V → Type 0
  Serves c start none s = Unit {0}
  Serves c start (some reply) s = ServesWindow c start reply s

  if_done-Serves :
      (bodies : List (List BodyRead)) (start : ℕ) (done : Bool) (card : CardState D V)
      → length (whole_text bodies) + chunk_size ≤ 4294967296
      → 4294967296 ≤ modulus
      → 0 < length buf
      → OnCard vol
          (λ s. done ≡ true → laws.store.view.stored s (id ∷ dir ∷ []) ≡ whole_text bodies)
          card
      → Ensures {E = FManError}
          (λ reply. OnCard vol (Serves (whole_text bodies) start reply))
          (λ _ _. ⊥)
          (if_done vm modulus dir id start done card)
  if_done-Serves bodies start done (no_card d) small machine filled h = absurd h
  if_done-Serves bodies start done processing small machine filled h = absurd h
  if_done-Serves bodies start false (active s v) small machine filled (h, same_vol) =
      returns (tt, same_vol)
  if_done-Serves bodies start true (active s v) small machine filled (h, same_vol) = rw same_vol (
      Ensures-bind_sure _
        (range-ServesWindow start s (whole_text bodies) (h refl) (omega (arith, small))
          (omega (arith, small, machine)) filled)
        (λ reply card g. returns g))

-- What was uploaded is what is served: a file that is sent in chunks to an empty file on an active
-- card, and is asked for by its name from a start on if each chunk got a number for a reply, is
-- answered with a window whose body is the same part of the uploaded text, byte for byte: 16 KiB from
-- the start on, less at the end. The headers tell its length, where it lies and the length of the
-- text, and the start is inside the text. An error is the answer only if the card fails, the directory
-- is not one of the two, or the start is not inside the text. Until the answer the server neither
-- panics nor waits for ever; the body is sent whole unless the handler panics, and before a panic a
-- front of it is sent. Every chunk but the last has 16 KiB, the file and a window fit an u32 together,
-- usize has 32 bits or more, and the buffer is not empty.
pub upload-serves :
    (D : Type 0) {I V W : Type 0} {vm : VolumeManager V} {writer : ChunkWriter I W}
    (laws : ServerLaws vm writer) (modulus : ℕ) (dir id : Bytes) (vol : RawVolume) (buf : Bytes)
    (w : W) (bodies : List (List BodyRead)) (start : ℕ) (s : V)
    → 4294967296 ≤ modulus
    → 0 < length buf
    → laws.store.view.stored s (id ∷ dir ∷ []) ≡ []
    → IsChunked bodies
    → length bodies * 16384 ≤ 4294967296
    → length (whole_text bodies) + chunk_size ≤ 4294967296
    → Ensures
        (λ reply.
          OnCard {D = D} vol
            (Serves D laws modulus dir id vol buf w (whole_text bodies) start reply))
        (λ _ _. ⊥)
        (upload_then_request vm modulus dir id bodies start (active s vol))
upload-serves D laws modulus dir id vol buf w bodies start s machine filled empty full chunks
      small =
    Ensures-bind_sure _
      (upload-assembles laws.store modulus dir id vol machine bodies s empty full chunks)
      (λ done card h.
        if_done-Serves D laws modulus dir id vol buf w bodies start done card small machine filled
          h)
