-- ===== src/Server/Stream/Laws.antt =====
-- What streaming relies on: embedded_sdmmc reads from a cursor into the file, and a chunk is sent
-- whole unless the write fails. Neither disturbs what the other keeps.
use esp32_music_server.Prelude.{ℕ, ◌+◌, ◌≡◌, ◌++◌, Bytes, length, take, drop}
use esp32_music_server.Run.{Ensures}
use esp32_music_server.Sdmmc.{RawDirectory, RawFile, RawVolume, VolumeManager}
use esp32_music_server.Server.Writer.{ChunkWriter}

-- What is in a file, where its cursor stands, and what the connection has sent.
pub record Views (S : Type 0) : Type 0 where
  pub content : S → RawFile → Bytes
  pub cursor : S → RawFile → ℕ
  pub sent : S → Bytes

pub record Seen {S : Type 0} (v : Views S) (s : S) (f : RawFile) (c : Bytes) (p : ℕ) (out : Bytes)
    : Type 0 where
  pub content_is : v.content s f ≡ c
  pub cursor_is : v.cursor s f ≡ p
  pub sent_is : v.sent s ≡ out

-- The connection has sent the text, or a front of it.
pub record SentFront {S : Type 0} (v : Views S) (out window : Bytes) (s : S) : Type 0 where
  pub front : Bytes
  pub rest : Bytes
  pub parts : front ++ rest ≡ window
  pub sent_is : v.sent s ≡ out ++ front

pub record StreamLaws {I S : Type 0} (vm : VolumeManager S) (writer : ChunkWriter I S)
    : Type 0 where
  pub views : Views S
  pub read_reads :
      (f : RawFile) (n : ℕ) (s : S)
      → Ensures
          (λ bs s'.
            (bs ≡ take n (drop (views.cursor s f) (views.content s f)))
            × Seen views s' f (views.content s f) (views.cursor s f + length bs) (views.sent s))
          (λ _ s'. views.sent s' ≡ views.sent s)
          (vm.read f n s)
  pub seek_seeks :
      (f : RawFile) (n : ℕ) (s : S)
      → Ensures
          (λ _ s'. Seen views s' f (views.content s f) n (views.sent s))
          (λ _ s'. views.sent s' ≡ views.sent s)
          (vm.seek_from_start f n s)
  pub length_is :
      (f : RawFile) (s : S)
      → Ensures
          (λ n s'.
            (n ≡ length (views.content s f))
            × Seen views s' f (views.content s f) (views.cursor s f) (views.sent s))
          (λ _ s'. views.sent s' ≡ views.sent s)
          (vm.file_length f s)
  pub open_root_dir_keeps :
      (vol : RawVolume) (f : RawFile) (s : S)
      → Ensures
          (λ _ s'. Seen views s' f (views.content s f) (views.cursor s f) (views.sent s))
          (λ _ s'. views.sent s' ≡ views.sent s)
          (vm.open_root_dir vol s)
  pub close_dir_keeps :
      (d : RawDirectory) (f : RawFile) (s : S)
      → Ensures
          (λ _ s'. Seen views s' f (views.content s f) (views.cursor s f) (views.sent s))
          (λ _ s'. views.sent s' ≡ views.sent s)
          (vm.close_dir d s)
  pub close_file_keeps :
      (f : RawFile) (s : S)
      → Ensures
          (λ _ s'. views.sent s' ≡ views.sent s)
          (λ _ s'. views.sent s' ≡ views.sent s)
          (vm.close_file f s)
  pub write_sends :
      (chunk : Bytes) (f : RawFile) (s : S)
      → Ensures
          (λ _ s'. Seen views s' f (views.content s f) (views.cursor s f) (views.sent s ++ chunk))
          (λ _ s'. SentFront views (views.sent s) chunk s')
          (writer.write_chunk chunk s)
  pub finalize_sends :
      (s : S)
      → Ensures
          (λ _ s'. views.sent s' ≡ views.sent s)
          (λ _ s'. views.sent s' ≡ views.sent s)
          (writer.finalize s)
