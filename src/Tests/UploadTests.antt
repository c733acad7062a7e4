-- ===== src/Tests/UploadTests.antt =====
-- server/src/chunk.rs and server/src/delete.rs at concrete requests.
use esp32_music_server.Prelude.{
  ℕ, ◌+◌, ◌*◌, ◌%◌, ◌≡◌, refl, some, Bool, true, false, List, [], ◌∷◌, codes, take, drop, length,
  same, if◌then◌else◌, Bytes, arith,
}
use esp32_music_server.Run.{Out, Ensures, ok, err, panic, hang}
use esp32_music_server.FileManager.{FManError, CardState, active}
use esp32_music_server.FileManager.OnCard.{OnCard}
use esp32_music_server.Sdmmc.Handles.{Opens}
use esp32_music_server.Sdmmc.Contents.{overwrite}
use esp32_music_server.Server.Session.{Written}
use esp32_music_server.Server.Chunk.{chunk_offset}
use esp32_music_server.Std.Decimal.{to_string}
use esp32_music_server.Server.Chunk.Receive.{
  ChunkQuery, BodyRead, received, failed, receive_loop, receive_chunk, receive_chunks, count,
}
use esp32_music_server.Server.Chunk.Receive.Handles.{receive_chunks-handles}
use esp32_music_server.Server.Chunk.Receive.Writes.{body_text, breaks_off, receive_loop-writes}
use esp32_music_server.Server.Chunk.Send.{GetChunkState, total_to_send, write_chunk_response}
use esp32_music_server.Server.Chunk.Send.Sends.{write_chunk_response-Written}
use esp32_music_server.Server.Delete.{delete_db_files, handle_delete_db, handle_fs_music_delete}
use esp32_music_server.Server.Delete.Handles.{Untouched, deletions-handles}
use esp32_music_server.Server.Delete.Order.{delete_db_files-present}
use esp32_music_server.Server.Chunk.Receive.Assembles.{
  IsChunked, upload, whole_text, upload-assembles,
}
use esp32_music_server.Ram.Named.{Shelf, named, named-StoreLaws}
use esp32_music_server.Ram.{Disk, ram, disk_of, recorder}
use esp32_music_server.Ram.Meets.{ram-HandleLaws, ram-StreamLaws}
use esp32_music_server.Ram.Changes.{ram-WriteLaws, ram-DeleteLaws}

abbrev usize_32 : ℕ
usize_32 = 4294967296

abbrev second : ChunkQuery
second = record { id = codes "1.mp3"; idx = 0 }

-- Two reads, and the end of the body.
uploaded :
    receive_chunks {D = Unit {0}} ram usize_32
      (some second)
      (received (codes "ab") ∷ received (codes "c") ∷ [])
      (codes "music")
      (active (disk_of (codes "12345")) 7)
    ≡ ok (count (codes "3")) (active (record (disk_of (codes "abc45")) { cursor = 3 }) 7)
unfolding receive_chunks chunk_offset receive_loop to_string
uploaded = refl

receive_chunks-handles_example :
    Ensures {S = CardState (Unit {0}) Disk}
      (λ _. OnCard 7 (λ s'.
        Opens ram-HandleLaws.tables s'
          (ram-HandleLaws.tables.dirs (disk_of []))
          (ram-HandleLaws.tables.files (disk_of []))))
      (λ _ _. ⊥)
      (receive_chunks ram usize_32
        (some second)
        (received (codes "ab") ∷ failed ∷ [])
        (codes "music")
        (active (disk_of []) 7))
receive_chunks-handles_example =
    receive_chunks-handles ram-HandleLaws usize_32 (some second)
      (received (codes "ab") ∷ failed ∷ []) (codes "music") (disk_of []) 7

receive_loop-writes_example :
    Ensures
      (λ n s'.
        (breaks_off (received (codes "ab") ∷ []) ≡ false)
        × (n ≡ (0 + length (body_text (received (codes "ab") ∷ []))) % usize_32)
        × (ram-WriteLaws.contents.content s' 3
            ≡ overwrite 0 (body_text (received (codes "ab") ∷ [])) (codes "12345")))
      (λ _ _. Unit {0})
      (receive_loop ram usize_32 3 (received (codes "ab") ∷ []) 0 (disk_of (codes "12345")))
receive_loop-writes_example =
    receive_loop-writes ram-WriteLaws usize_32 3 (received (codes "ab") ∷ []) 0 0 (codes "12345")
      (disk_of (codes "12345")) refl (record { content_is = refl; cursor_is = refl }) (omega arith)

abbrev first_chunk : GetChunkState
first_chunk = record { raw_file = 0; idx = 0 }

write_chunk_response-Written_example :
    Written {D = Unit {0}} ram-StreamLaws.views 7 []
      (take total_to_send (drop (0 * total_to_send) (codes "hello!")))
      (write_chunk_response ram recorder usize_32 first_chunk
        (codes "xyz")
        (active (disk_of (codes "hello!")) 7, []))
write_chunk_response-Written_example =
    write_chunk_response-Written (Unit {0}) ram recorder ram-StreamLaws usize_32 first_chunk
      (codes "xyz") (codes "hello!") (disk_of (codes "hello!")) [] 7 refl (omega arith)
      (omega arith) (omega arith)

deletions-handles_example :
    Ensures
      (λ _. Untouched {D = Unit {0}} ram-HandleLaws (disk_of []) 7)
      (λ _. Untouched ram-HandleLaws (disk_of []) 7)
      (handle_delete_db ram (codes "wal") (codes "data") (active (disk_of []) 7))
    × Ensures
        (λ _. Untouched {D = Unit {0}} ram-HandleLaws (disk_of []) 7)
        (λ _. Untouched ram-HandleLaws (disk_of []) 7)
        (handle_fs_music_delete ram (codes "1.mp3") (active (disk_of []) 7))
deletions-handles_example =
    deletions-handles (Unit {0}) ram-HandleLaws (codes "wal") (codes "data") (codes "1.mp3")
      (disk_of []) 7

delete_db_files-present_example :
    Ensures
      (λ _ s'.
        (m : Bytes)
        → ram-DeleteLaws.present s' 0 m ≡ (
            if same (codes "data") m
            then false
            else if same (codes "wal") m
            then false
            else ram-DeleteLaws.present (disk_of []) 0 m))
      (λ _ s'.
        (ram-DeleteLaws.present s' 0 (codes "data")
          ≡ ram-DeleteLaws.present (disk_of []) 0 (codes "data"))
        × ((m : Bytes)
            → same (codes "wal") m ≡ false
            → ram-DeleteLaws.present s' 0 m ≡ ram-DeleteLaws.present (disk_of []) 0 m))
      (delete_db_files ram (codes "wal") (codes "data") 0 (disk_of []))
delete_db_files-present_example =
    delete_db_files-present ram-DeleteLaws 0 (codes "wal") (codes "data") (disk_of []) refl

-- An upload in three reads, of a song that has its row already.
abbrev shelf : Shelf
shelf = record { next = 0; open_dirs = []; open_files = []; texts = [] }

abbrev one_chunk : List (List BodyRead)
one_chunk = (received (codes "ab") ∷ received (codes "c") ∷ []) ∷ []

song_text : whole_text one_chunk ≡ codes "abc"
unfolding whole_text body_text
song_text = refl

abbrev answer : Out FManError (CardState (Unit {0}) Shelf) Bool → Bool
answer (ok b s) = b
answer (err e s) = false
answer (panic s) = false
answer (hang s) = false

all_counted :
    answer (upload named usize_32 (codes "music") (codes "1.mp3") 0 one_chunk (active shelf 7))
    ≡ true
unfolding upload receive_chunks receive_chunk receive_loop chunk_offset overwrite to_string
all_counted = refl

upload-assembles_example :
    Ensures {S = CardState (Unit {0}) Shelf}
      (λ done. OnCard 7 (λ s'.
        done ≡ true
        → named-StoreLaws.view.stored s' (codes "1.mp3" ∷ codes "music" ∷ [])
          ≡ whole_text one_chunk))
      (λ _ _. ⊥)
      (upload named usize_32 (codes "music") (codes "1.mp3") 0 one_chunk (active shelf 7))
unfolding IsChunked
upload-assembles_example =
    upload-assembles named-StoreLaws usize_32 (codes "music") (codes "1.mp3") 7 (omega arith)
      one_chunk shelf refl tt (omega arith)
