-- ===== src/Server/Chunk/Send/Sends.antt =====
-- What the body of a chunk response is.
use native.Mathlib.Nat.{mod-eq_of_lt}
use esp32_music_server.Prelude.{
  ℕ, zero, suc, ◌∷◌, ◌-◌, ◌*◌, ◌%◌, ◌<◌, min, ◌≡◌, refl, sym, ap, ◌∙◌, ◌++◌, [], append-nil,
  Bool-cases, inl, inr, Bytes, length, take, drop, take-nil, drop_all, length-drop, leb, arith,
}
use esp32_music_server.Run.{
  Ensures, Ensures-bind, Ensures-attempt_last, Ensures-map_err, Ensures-weaken,
}
use esp32_music_server.Run.Settles.{
  Settles, Settles-Ensures, Settles-unwrap, Settles-bind, Settles-then_drop,
}
use esp32_music_server.Std.Usize.{as_u32}
use esp32_music_server.Sdmmc.{RawDirectory, RawFile, RawVolume, VolumeManager}
use esp32_music_server.FileManager.{sd_err, active}
use esp32_music_server.Server.Writer.{ChunkWriter, lift_vm, lift_writer}
use esp32_music_server.Server.Session.{Written, write_if_active-Settles}
use esp32_music_server.Server.Stream.Laws.{Seen, SentFront, StreamLaws}
use esp32_music_server.Server.Stream.Sends.{
  nothing_sent, send_loop-whole, drop_file_sends, SentFront-keep,
}
use esp32_music_server.Server.Chunk.{chunk_offset}
use esp32_music_server.Server.Chunk.Send.{
  total_to_send, GetChunkState, send_window, send_chunk, write_chunk_response,
}

regroup : (idx : ℕ) → idx * 16 * 1024 ≡ idx * total_to_send
regroup idx = omega arith

-- Without overflow, the chunk with the given number starts behind that many whole chunks.
pub chunk_offset_lem :
    (modulus idx : ℕ)
    → idx * total_to_send < modulus
    → chunk_offset modulus idx ≡ idx * total_to_send
unfolding chunk_offset
chunk_offset_lem modulus idx h =
    let first : idx * 16 < modulus = omega arith in
    let second : idx * 16 * 1024 < modulus = omega arith in
    ap (λ n. (n * 1024) % modulus) (mod-eq_of_lt first) ∙ mod-eq_of_lt second ∙ regroup idx

take-min : (n : ℕ) (xs : Bytes) {m : ℕ} → m ≡ min n (length xs) → take m xs ≡ take n xs
take-min n [] e = take-nil _ ∙ sym (take-nil n)
take-min zero (x ∷ xs) {m = zero} e = refl
take-min zero (x ∷ xs) {m = suc m} e = absurd (omega arith)
take-min (suc n) (x ∷ xs) {m = zero} e = absurd (omega arith)
take-min (suc n) (x ∷ xs) {m = suc m} e = ap (λ l. x ∷ l) (take-min n xs (omega arith))

-- The window of a chunk is all that is left of the file, up to `total_to_send`.
short_window :
    (offset : ℕ) (c : Bytes)
    → take (min total_to_send (length c - offset)) (drop offset c)
      ≡ take total_to_send (drop offset c)
short_window offset c = take-min total_to_send (drop offset c) (omega (arith, length-drop offset c))

module _ {I S : Type 0} {vm : VolumeManager S} {writer : ChunkWriter I S}
    (laws : StreamLaws vm writer) where
  -- The action of a chunk response sends the chunk of the file and nothing else, or fails with a
  -- front of it sent.
  pub send_window-sends :
      (f : RawFile) (offset : ℕ) (buf c : Bytes) (p : ℕ) (out : Bytes) (s : S)
      → Seen laws.views s f c p out
      → length c < 4294967296
      → 0 < length buf
      → Ensures
          (λ _ s'. laws.views.sent s' ≡ out ++ take total_to_send (drop offset c))
          (λ _ s'. SentFront laws.views out (take total_to_send (drop offset c)) s')
          (send_window vm writer f offset (length c) buf s)
  unfolding send_window
  send_window-sends f offset buf c p out s h small room =
      elim (Bool-cases (leb (length c) offset)) [
        | inl past ↦
            let empty : take total_to_send (drop offset c) ≡ [] =
              ap (take total_to_send) (drop_all offset c (ground arith)) ∙ take-nil total_to_send in
            let all_sent : out ≡ out ++ take total_to_send (drop offset c) =
              sym (append-nil out) ∙ ap (λ t. out ++ t) (sym empty) in
            rw past (
              Ensures-attempt_last (laws.finalize_sends s) (λ _ _ g. g ∙ h.sent_is ∙ all_sent)
                (λ _ _ g. g ∙ h.sent_is ∙ all_sent))
        | inr inside ↦
            let left : offset < length c = ground arith in
            let whole = short_window offset c in
            rw inside (
              Ensures-bind _
                (Ensures-map_err sd_err (laws.seek_seeks f (as_u32 offset) s)
                  (λ _ s' g. nothing_sent out _ (g ∙ h.sent_is)))
                (λ _ s₁ h₁.
                  Ensures-bind _
                    (Ensures-weaken
                      (send_loop-whole laws f c (min total_to_send (length c - offset)) offset out
                        buf s₁
                        (record {
                          content_is = h₁.content_is ∙ h.content_is;
                          cursor_is = h₁.cursor_is ∙ omega arith;
                          sent_is = h₁.sent_is ∙ h.sent_is;
                        })
                        (omega arith) room)
                      (λ _ _ g. g ∙ ap (λ t. out ++ t) whole) (λ _ _ g. rw whole at g))
                    (λ _ s₂ h₂.
                      Ensures-attempt_last (laws.finalize_sends s₂) (λ _ _ g. g ∙ h₂)
                        (λ _ _ g. g ∙ h₂))))
      ]

  -- The same for the whole action, which also closes the root and the file. Asking for the length of
  -- the file may fail, and panics then, before anything is sent.
  pub send_chunk-sends :
      (modulus : ℕ) (state : GetChunkState) (buf : Bytes) (root : RawDirectory) (c : Bytes) (p : ℕ)
      (out : Bytes) (s : S)
      → Seen laws.views s state.raw_file c p out
      → state.idx * total_to_send < modulus
      → length c < 4294967296
      → 0 < length buf
      → Settles
          (λ _ s'.
            laws.views.sent s' ≡ out ++ take total_to_send (drop (state.idx * total_to_send) c))
          (λ _ s'.
            SentFront laws.views out (take total_to_send (drop (state.idx * total_to_send) c)) s')
          (SentFront laws.views out (take total_to_send (drop (state.idx * total_to_send) c)))
          (send_chunk vm writer modulus state buf root s)
  unfolding send_chunk
  send_chunk-sends modulus state buf root c p out s h fits small room =
      let f = state.raw_file in
      rw (chunk_offset_lem modulus state.idx fits) (
        Settles-bind _
          (Settles-Ensures (
            Ensures-map_err sd_err (laws.close_dir_keeps root f s)
              (λ _ _ g. nothing_sent out _ (g ∙ h.sent_is))))
          (λ _ s₁ h₁.
            Settles-then_drop _
              (Settles-bind _
                (Settles-unwrap (laws.length_is f s₁)
                  (λ _ _ g. nothing_sent out _ (g ∙ h₁.sent_is ∙ h.sent_is)))
                (λ n s₂ (len, h₂).
                  let c_is = h₁.content_is ∙ h.content_is in
                  let n_is : n ≡ length c = len ∙ ap length c_is in
                  rw n_is (
                    Settles-Ensures (
                      send_window-sends f (state.idx * total_to_send) buf c _ out s₂
                        (record {
                          content_is = h₂.content_is ∙ c_is;
                          cursor_is = refl;
                          sent_is = h₂.sent_is ∙ h₁.sent_is ∙ h.sent_is;
                        })
                        small room))))
              (λ _ s' g. Ensures-weaken (drop_file_sends laws f s') (λ _ _ e. e ∙ g) (λ _ _ e. e))
              (λ _ s' g.
                Ensures-weaken (drop_file_sends laws f s') (λ _ _ e. SentFront-keep laws out _ g e)
                  (λ _ _ e. e))))

-- On an active card the body of a chunk response is the chunk of the file with the asked number:
-- 16 KiB, less at the file's end, nothing behind it. It is sent whole unless the handler panics, as
-- where the length of the file cannot be asked for, and before a panic a front of it is sent; the
-- handler never waits for ever. The number does not overflow, the file's length fits an u32, and the
-- buffer is not empty.
pub write_chunk_response-Written :
    (D : Type 0) {I V W : Type 0} (vm : VolumeManager V) (writer : ChunkWriter I W)
    (laws : StreamLaws (lift_vm {W = W} vm) (lift_writer writer)) (modulus : ℕ)
    (state : GetChunkState) (buf c : Bytes) (s : V) (w : W) (vol : RawVolume)
    → laws.views.content (s, w) state.raw_file ≡ c
    → state.idx * total_to_send < modulus
    → length c < 4294967296
    → 0 < length buf
    → Written {D = D} laws.views vol
        (laws.views.sent (s, w))
        (take total_to_send (drop (state.idx * total_to_send) c))
        (write_chunk_response vm writer modulus state buf (active s vol, w))
unfolding write_chunk_response
write_chunk_response-Written D vm writer laws modulus state buf c s w vol here fits small room =
    write_if_active-Settles D vm writer laws _ state.raw_file c _ s w vol here
      (λ root p t h. send_chunk-sends laws modulus state buf root c p _ t h fits small room)
