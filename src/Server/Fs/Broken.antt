-- ===== src/Server/Fs/Broken.antt =====
-- A file that is shown over a connection that is broken.
use esp32_music_server.Prelude.{ℕ, suc, refl, ◌||◌, List, Bytes, codes, same}
use esp32_music_server.Run.{
  Out, good, Ensures, returns, fails, Ensures-bind, Ensures-attempt, Ensures-if, Ensures-weaken,
}
use esp32_music_server.Sdmmc.{SdError, DirEntry, RawDirectory, RawFile, RawVolume, VolumeManager}
use esp32_music_server.Sdmmc.Handles.{Opens, HandleLaws}
use esp32_music_server.Sdmmc.Rules.{Leaves, Opens-refl, rule-Keeps}
use esp32_music_server.FileManager.{file, CardState, active}
use esp32_music_server.Server.Writer.{ChunkWriter, lift_vm, lift_writer, beside, behind, on_session}
use esp32_music_server.Server.Session.{InSession}
use esp32_music_server.Server.Fs.{Texts, view_loop, view_file, write_fs_chunks}

-- The connection refuses every chunk.
abbrev pub Refuses : {I W : Type 0} → ChunkWriter I W → Type 0
Refuses {W} writer =
    (chunk : Bytes) (w : W) → Ensures (λ _ _. ⊥) (λ _ _. Unit {0}) (writer.write_chunk chunk w)

module _ {I V W : Type 0} {vm : VolumeManager V} (laws : HandleLaws vm) (writer : ChunkWriter I W)
    (refuses : Refuses writer) (texts : Texts) (ds : List RawDirectory) (fs : List RawFile) where
  -- The run fails, with these handles open.
  abbrev Fails : Out I (V × W) (Unit {0}) → Type 0
  Fails r = Ensures (λ _ _. ⊥) (λ _ t. Opens laws.tables t.0 ds fs) r

  behind_refused :
      {v : V} {r : Out I W (Unit {0})}
      → Opens laws.tables v ds fs
      → Ensures (λ _ _. ⊥) (λ _ _. Unit {0}) r
      → Fails (behind v r)
  behind_refused h (returns never) = absurd never
  behind_refused h (fails _) = fails h

  write_Fails :
      (chunk : Bytes) (v : V) (w : W)
      → Opens laws.tables v ds fs
      → Fails ((lift_writer writer).write_chunk chunk (v, w))
  write_Fails chunk v w h = behind_refused h (refuses chunk w)

  beside-Leaves :
      {A : Type 0} (w : W) {r : Out SdError V A}
      → Leaves laws.tables ds fs r
      → Ensures {S = V × W}
          (λ _ t. Opens laws.tables t.0 ds fs)
          (λ _ t. Opens laws.tables t.0 ds fs)
          (beside w r)
  beside-Leaves w (returns h) = returns h
  beside-Leaves w (fails h) = fails h

  view_loop-Fails :
      (n fuel : ℕ) (f : RawFile) (v : V) (w : W)
      → Opens laws.tables v ds fs
      → Fails (view_loop (lift_vm vm) (lift_writer writer) texts n (suc fuel) f (v, w))
  unfolding view_loop
  view_loop-Fails n fuel f v w h =
      Ensures-attempt _ (beside-Leaves w (rule-Keeps laws h (vm.read f n) (laws.read_keeps f n)))
        (λ bs t g.
          Ensures-bind {P = λ _ _. ⊥} _ (write_Fails bs t.0 t.1 g) (λ _ _ never. absurd never))
        (λ e t g. write_Fails _ t.0 t.1 g)

  view_file-Fails :
      (n fuel : ℕ) (entry : DirEntry) (f : RawFile) (v : V) (w : W)
      → Opens laws.tables v ds fs
      → Fails (view_file (lift_vm vm) (lift_writer writer) texts n (suc fuel) entry f (v, w))
  unfolding view_file
  view_file-Fails n fuel entry f v w h =
      Ensures-bind {P = λ _ _. ⊥} _
        (Ensures-if (same entry.extension (codes "TXT") || same entry.extension (codes "HTM")) _ _
          (Ensures-bind {P = λ _ t. Opens laws.tables t.0 ds fs} _
            (Ensures-if (same entry.extension (codes "TXT")) _ _
              (Ensures-weaken (write_Fails (codes "<pre>") v w h) (λ _ _ never. absurd never)
                (λ _ _ g. g))
              (returns h))
            (λ _ t g.
              Ensures-bind {P = λ _ _. ⊥} _ (view_loop-Fails n fuel f t.0 t.1 g)
                (λ _ _ never. absurd never)))
          (write_Fails _ v w h))
        (λ _ _ never. absurd never)

on_session-Fails :
    (D : Type 0) {I V W : Type 0} (vol : RawVolume) {P : V × W → Type 0}
    {r : Out I (V × W) (Unit {0})}
    → Ensures (λ _ _. ⊥) (λ _. P) r
    → Ensures {S = CardState D V × W} (λ _ _. ⊥) (λ _. InSession vol P) (on_session vol r)
on_session-Fails D vol (returns never) = absurd never
on_session-Fails D vol (fails h) = fails (h, refl)

-- A file that is shown, on an active card, over a connection that refuses every chunk is never
-- closed: the response fails, and exactly the handles are open that were open before, that of the
-- file with them.
pub write_fs_chunks-Refused :
    (D : Type 0) {I V W : Type 0} {vm : VolumeManager V} (laws : HandleLaws vm)
    (writer : ChunkWriter I W) (texts : Texts)
    → Refuses writer
    → (n fuel : ℕ) (entry : DirEntry) (f : RawFile) (s : V) (w : W) (vol : RawVolume)
    → Ensures {S = CardState D V × W}
        (λ _ _. ⊥)
        (λ _. InSession vol (λ t. Opens laws.tables t.0 (laws.tables.dirs s) (laws.tables.files s)))
        (write_fs_chunks vm writer texts n (suc fuel) (good (file entry f)) (active s vol, w))
unfolding write_fs_chunks
write_fs_chunks-Refused D laws writer texts refuses n fuel entry f s w vol =
    Ensures-bind {P = λ _ _. ⊥} _
      (on_session-Fails D vol (
        view_file-Fails laws writer refuses texts (laws.tables.dirs s) (laws.tables.files s) n fuel
          entry f s w (Opens-refl s)))
      (λ _ _ never. absurd never)
