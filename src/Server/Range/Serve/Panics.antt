-- ===== src/Server/Range/Serve/Panics.antt =====
-- What becomes of a range response whose connection breaks.
use esp32_music_server.Prelude.{ℕ, suc, ◌<◌, Bytes, lt→ltb}
use esp32_music_server.Run.{
  Out, Ensures, returns, fails, Ensures-bind, Ensures-attempt, Ensures-map_err, Ensures-then_drop,
  pure,
}
use esp32_music_server.Sdmmc.{RawDirectory, RawFile, RawVolume, VolumeManager}
use esp32_music_server.FileManager.{sd_err, CardState, active}
use esp32_music_server.Server.Writer.{ChunkWriter, lift_vm, lift_writer, behind}
use esp32_music_server.Server.Session.{Panics, write_if_active-Panics}
use esp32_music_server.Server.Stream.{send_loop}
use esp32_music_server.Server.Stream.Laws.{StreamLaws}
use esp32_music_server.Server.Range.Request.{RangeState}
use esp32_music_server.Server.Range.Serve.{send_range, write_range}

-- Every write of a chunk fails.
abbrev pub Broken : {I W : Type 0} → ChunkWriter I W → Type 0
Broken {W} writer =
    (chunk : Bytes) (w : W) → Ensures (λ _ _. ⊥) (λ _ _. Unit {0}) (writer.write_chunk chunk w)

module _ {I S : Type 0} {vm : VolumeManager S} {writer : ChunkWriter I S}
    (laws : StreamLaws vm writer) (broken : Broken writer) where
  -- A loop with a byte to send fails in its first round.
  pub send_loop_broken :
      (f : RawFile) (limit k : ℕ) (buf : Bytes) (s : S)
      → 0 < limit
      → Ensures (λ _ _. ⊥) (λ _ _. Unit {0}) (send_loop vm writer f limit (suc k) 0 buf s)
  unfolding send_loop
  send_loop_broken f limit k buf s some_left = rw (lt→ltb 0 limit some_left) (
      Ensures-bind _ (Ensures-map_err sd_err (laws.read_reads f _ s) (λ _ _ _. tt)) (λ bs s₁ _.
        Ensures-bind _ (Ensures-map_err _ (broken _ s₁) (λ _ _ _. tt))
          (λ _ s₂ never. absurd never)))

  send_range_broken :
      (state : RangeState) (buf : Bytes) (root : RawDirectory) (s : S)
      → 0 < state.len
      → Ensures (λ _ _. ⊥) (λ _ _. Unit {0}) (send_range vm writer state buf root s)
  unfolding send_range
  send_range_broken state buf root s some_left =
      Ensures-bind _ (Ensures-map_err sd_err (laws.close_dir_keeps root 0 s) (λ _ _ _. tt))
        (λ _ s₁ _.
          Ensures-then_drop _
            (Ensures-bind _
              (Ensures-map_err sd_err (laws.seek_seeks state.raw_file _ s₁) (λ _ _ _. tt))
              (λ _ s₂ _.
                Ensures-bind _
                  (send_loop_broken state.raw_file state.len state.len buf s₂ some_left)
                  (λ _ s₃ never. absurd never)))
            (λ _ s' never. absurd never)
            (λ _ s' _.
              Ensures-attempt (λ _. pure tt) (laws.close_file_keeps state.raw_file s')
                (λ _ _ _. returns tt) (λ _ _ _. returns tt)))

behind-broken :
    {E V W A : Type 0} (v : V) {r : Out E W A}
    → Ensures (λ _ _. ⊥) (λ _ _. Unit {0}) r
    → Ensures (λ _ _. ⊥) (λ _ _. Unit {0}) (behind v r)
behind-broken v (returns h) = absurd h
behind-broken v (fails h) = fails tt

lift-Broken :
    {I V W : Type 0} (writer : ChunkWriter I W)
    → Broken writer
    → Broken (lift_writer {V = V} writer)
lift-Broken writer broken chunk t = behind-broken t.0 (broken chunk t.1)

-- A range response on an active card panics if its connection refuses every write and the window
-- is not empty: the failed write comes back as an error, which the handler takes for unreachable.
pub write_range-Panics :
    (D : Type 0) {I V W : Type 0} (vm : VolumeManager V) (writer : ChunkWriter I W)
    (laws : StreamLaws (lift_vm {W = W} vm) (lift_writer writer)) (state : RangeState) (buf : Bytes)
    (s : V) (w : W) (vol : RawVolume)
    → Broken writer
    → 0 < state.len
    → Panics {S = CardState D V × W} (write_range vm writer state buf (active s vol, w))
unfolding write_range
write_range-Panics D vm writer laws state buf s w vol broken some_left =
    write_if_active-Panics D vm writer laws _ s w vol
      (λ root t. send_range_broken laws (lift-Broken writer broken) state buf root t some_left)
