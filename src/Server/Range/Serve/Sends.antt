-- ===== src/Server/Range/Serve/Sends.antt =====
-- What the body of a range response is.
use esp32_music_server.Prelude.{
  ℕ, ◌+◌, ◌%◌, ◌≤◌, ◌<◌, ◌≡◌, ◌∙◌, ◌++◌, Bytes, length, take, drop, arith,
}
use esp32_music_server.Run.{
  Ensures, Ensures-bind, Ensures-attempt_last, Ensures-map_err, Ensures-then_drop, Ensures-weaken,
}
use esp32_music_server.Sdmmc.{RawDirectory, RawVolume, VolumeManager}
use esp32_music_server.FileManager.{sd_err, active}
use esp32_music_server.Server.Writer.{ChunkWriter, lift_vm, lift_writer}
use esp32_music_server.Server.Stream.Laws.{Seen, SentFront, StreamLaws}
use esp32_music_server.Server.Stream.Sends.{
  send_loop-whole, nothing_sent, drop_file_sends, SentFront-keep,
}
use esp32_music_server.Server.Session.{Written, write_if_active-Written}
use esp32_music_server.Server.Range.Request.{RangeState}
use esp32_music_server.Server.Range.Serve.{send_range, write_range}

module _ {I S : Type 0} {vm : VolumeManager S} {writer : ChunkWriter I S}
    (laws : StreamLaws vm writer) where
  -- The action of a range response sends the window of the file and nothing else, or fails with a
  -- front of it sent; it neither panics nor waits for ever. The window lies inside the file, whose
  -- positions fit an u32, and the buffer is not empty.
  pub send_range-sends :
      (state : RangeState) (buf : Bytes) (root : RawDirectory) (c : Bytes) (p : ℕ) (out : Bytes)
      (s : S)
      → Seen laws.views s state.raw_file c p out
      → state.start + state.len ≤ length c
      → length c < 4294967296
      → 0 < length buf
      → Ensures
          (λ _ s'. laws.views.sent s' ≡ out ++ take state.len (drop state.start c))
          (λ _ s'. SentFront laws.views out (take state.len (drop state.start c)) s')
          (send_range vm writer state buf root s)
  unfolding send_range
  send_range-sends state buf root c p out s h fits small room =
      let window : Bytes = take state.len (drop state.start c) in
      Ensures-bind _
        (Ensures-map_err sd_err (laws.close_dir_keeps root state.raw_file s)
          (λ _ s' g. nothing_sent out window (g ∙ h.sent_is)))
        (λ _ s₁ h₁.
          Ensures-then_drop _
            (Ensures-bind _
              (Ensures-map_err sd_err (laws.seek_seeks state.raw_file (state.start % 4294967296) s₁)
                (λ _ s' g. nothing_sent out window (g ∙ h₁.sent_is ∙ h.sent_is)))
              (λ _ s₂ h₂.
                Ensures-bind _
                  (send_loop-whole laws state.raw_file c state.len state.start out buf s₂
                    (record {
                      content_is = h₂.content_is ∙ h₁.content_is ∙ h.content_is;
                      cursor_is = h₂.cursor_is ∙ omega arith;
                      sent_is = h₂.sent_is ∙ h₁.sent_is ∙ h.sent_is;
                    })
                    fits room)
                  (λ _ s₃ h₃.
                    Ensures-attempt_last (laws.finalize_sends s₃) (λ _ _ g. g ∙ h₃)
                      (λ _ _ g. g ∙ h₃))))
            (λ _ s' g.
              Ensures-weaken (drop_file_sends laws state.raw_file s') (λ _ _ e. e ∙ g) (λ _ _ e. e))
            (λ _ s' g.
              Ensures-weaken (drop_file_sends laws state.raw_file s')
                (λ _ _ e. SentFront-keep laws out window g e) (λ _ _ e. e)))

-- On an active card the body of a range response is the window of the file, byte for byte: it is
-- sent whole unless the handler panics, and before a panic a front of it is sent. The handler never
-- waits for ever. The window lies inside the file, whose length fits an u32, and the buffer is not
-- empty.
pub write_range-Written :
    (D : Type 0) {I V W : Type 0} (vm : VolumeManager V) (writer : ChunkWriter I W)
    (laws : StreamLaws (lift_vm {W = W} vm) (lift_writer writer)) (state : RangeState)
    (buf c : Bytes) (s : V) (w : W) (vol : RawVolume)
    → laws.views.content (s, w) state.raw_file ≡ c
    → state.start + state.len ≤ length c
    → length c < 4294967296
    → 0 < length buf
    → Written {D = D} laws.views vol
        (laws.views.sent (s, w))
        (take state.len (drop state.start c))
        (write_range vm writer state buf (active s vol, w))
unfolding write_range
write_range-Written D vm writer laws state buf c s w vol here fits small room =
    write_if_active-Written D vm writer laws _ state.raw_file c _ s w vol here
      (λ root p t h. send_range-sends laws state buf root c p _ t h fits small room)
