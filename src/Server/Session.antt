-- ===== src/Server/Session.antt =====
-- Statements about the runs of `write_chunks`: the card is active, and the connection beside it.
use esp32_music_server.Prelude.{ℕ, ◌≡◌, refl, ◌++◌, Bytes, ◌∙◌}
use esp32_music_server.Run.{
  Out, ok, err, panic, hang, Act, Result, good, bad, Ensures, returns, fails, Ensures-bind,
  Ensures-map_err,
}
use esp32_music_server.Run.Settles.{
  Settles, settles_ok, settles_err, settles_panic, Settles-Ensures, Settles-bind,
}
use esp32_music_server.Sdmmc.{RawDirectory, RawFile, RawVolume, VolumeManager}
use esp32_music_server.FileManager.{
  FManError, sd_err, CardState, no_card, active, processing, is_card_active,
}
use esp32_music_server.Server.Writer.{
  ChunkWriter, lift_vm, lift_writer, on_session, unwrap_written, write_if_active,
}
use esp32_music_server.Server.Stream.Laws.{Views, Seen, SentFront, StreamLaws}
use esp32_music_server.Server.Stream.Sends.{nothing_sent}

abbrev pub OnActive : {D V W : Type 0} → RawVolume → (V × W → Type 0) → CardState D V → W → Type 0
OnActive vol P (no_card _) w = ⊥
OnActive vol P (active s v) w = P (s, w) × (v ≡ vol)
OnActive vol P processing w = ⊥

abbrev pub InSession : {D V W : Type 0} → RawVolume → (V × W → Type 0) → CardState D V × W → Type 0
InSession vol P s = OnActive vol P s.0 s.1

-- A body that returned, or whose end the connection refused, was sent whole; before a panic a
-- front of it was.
abbrev pub Written :
    {I D V W : Type 0}
    → Views (V × W)
    → RawVolume
    → Bytes
    → Bytes
    → Out I (CardState D V × W) (Unit {0})
    → Type 0
Written v vol out window (ok _ s) = InSession vol (λ t. v.sent t ≡ out ++ window) s
Written v vol out window (err _ s) = InSession vol (λ t. v.sent t ≡ out ++ window) s
Written v vol out window (panic s) = InSession vol (SentFront v out window) s
Written v vol out window (hang s) = ⊥

pub data Panics {I S : Type 0} : Out I S (Unit {0}) → Type 0 where
  panics : {s : S} → Panics (panic s)

module _ (D : Type 0) {I V W : Type 0} (views : Views (V × W)) where
  written :
      (vol : RawVolume) (out window : Bytes) {r : Out FManError (V × W) (Result I (Unit {0}))}
      → Settles
          (λ _ t. views.sent t ≡ out ++ window)
          (λ _ t. SentFront views out window t)
          (SentFront views out window)
          r
      → Written {D = D} views vol out window (unwrap_written (on_session vol r))
  written vol out window (settles_ok {a = good x} h) = (h, refl)
  written vol out window (settles_ok {a = bad e} h) = (h, refl)
  written vol out window (settles_err h) = (h, refl)
  written vol out window (settles_panic h) = (h, refl)

module _ (D : Type 0) {I V W : Type 0} where
  panicked :
      (vol : RawVolume) {r : Out FManError (V × W) (Result I (Unit {0}))}
      → Ensures (λ _ _. ⊥) (λ _ _. Unit {0}) r
      → Panics {S = CardState D V × W} (unwrap_written (on_session vol r))
  panicked vol (returns h) = absurd h
  panicked vol (fails h) = panics

module _ (D : Type 0) {I V W : Type 0} (vm : VolumeManager V) (writer : ChunkWriter I W)
    (laws : StreamLaws {I = I} (lift_vm {W = W} vm) (lift_writer writer)) where
  -- The rule for a response's body on an active card, where the action may panic.
  pub write_if_active-Settles :
      (f : RawDirectory → Act FManError (V × W) (Result I (Unit {0}))) (file : RawFile) (c : Bytes)
      (window : Bytes) (s : V) (w : W) (vol : RawVolume)
      → laws.views.content (s, w) file ≡ c
      → ((root : RawDirectory) (p : ℕ) (t : V × W)
          → Seen laws.views t file c p (laws.views.sent (s, w))
          → Settles
              (λ _ t'. laws.views.sent t' ≡ laws.views.sent (s, w) ++ window)
              (λ _ t'. SentFront laws.views (laws.views.sent (s, w)) window t')
              (SentFront laws.views (laws.views.sent (s, w)) window)
              (f root t))
      → Written {D = D} laws.views vol
          (laws.views.sent (s, w))
          window
          (write_if_active vm writer f (active s vol, w))
  unfolding is_card_active
  write_if_active-Settles f file c window s w vol here go =
      let out = laws.views.sent (s, w) in
      written D laws.views vol out window (
        Settles-bind f
          (Settles-Ensures (
            Ensures-map_err sd_err (laws.open_root_dir_keeps vol file (s, w))
              (λ _ _ e. nothing_sent out window e)))
          (λ root t h. go root _ t (record {
            content_is = h.content_is ∙ here;
            cursor_is = h.cursor_is;
            sent_is = h.sent_is;
          })))

  -- The rule where it does not.
  pub write_if_active-Written :
      (f : RawDirectory → Act FManError (V × W) (Result I (Unit {0}))) (file : RawFile) (c : Bytes)
      (window : Bytes) (s : V) (w : W) (vol : RawVolume)
      → laws.views.content (s, w) file ≡ c
      → ((root : RawDirectory) (p : ℕ) (t : V × W)
          → Seen laws.views t file c p (laws.views.sent (s, w))
          → Ensures
              (λ _ t'. laws.views.sent t' ≡ laws.views.sent (s, w) ++ window)
              (λ _ t'. SentFront laws.views (laws.views.sent (s, w)) window t')
              (f root t))
      → Written {D = D} laws.views vol
          (laws.views.sent (s, w))
          window
          (write_if_active vm writer f (active s vol, w))
  write_if_active-Written f file c window s w vol here go =
      write_if_active-Settles f file c window s w vol here
        (λ root p t h. Settles-Ensures (go root p t h))

  -- An action that never returns makes the handler panic.
  pub write_if_active-Panics :
      (f : RawDirectory → Act FManError (V × W) (Result I (Unit {0}))) (s : V) (w : W)
      (vol : RawVolume)
      → ((root : RawDirectory) (t : V × W) → Ensures (λ _ _. ⊥) (λ _ _. Unit {0}) (f root t))
      → Panics {S = CardState D V × W} (write_if_active vm writer f (active s vol, w))
  unfolding is_card_active
  write_if_active-Panics f s w vol go = panicked D vol (
      Ensures-bind f (Ensures-map_err sd_err (laws.open_root_dir_keeps vol 0 (s, w)) (λ _ _ _. tt))
        (λ root t _. go root t))
