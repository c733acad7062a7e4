-- ===== src/Tests/ServedTests.antt =====
-- An upload, and a request for what it stored, of server/src/chunk.rs and server/src/range.rs.
use esp32_music_server.Prelude.{ℕ, ◌≡◌, refl, Option, some, List, [], ◌∷◌, Bytes, codes, arith}
use esp32_music_server.Run.{Out, Ensures, ok, err, panic, hang}
use esp32_music_server.FileManager.{FManError, is_card_active, CardState, active}
use esp32_music_server.FileManager.OnCard.{OnCard}
use esp32_music_server.Server.Chunk.{chunk_offset}
use esp32_music_server.Server.Chunk.Receive.{BodyRead, received, receive_loop}
use esp32_music_server.Server.Chunk.Receive.Assembles.{IsChunked, whole_text, upload}
use esp32_music_server.Server.Chunk.Receive.Writes.{body_text}
use esp32_music_server.Sdmmc.Contents.{overwrite}
use esp32_music_server.Std.Decimal.{to_string}
use esp32_music_server.Server.Range.Request.{handle_range_request, RangeReply, partial_content}
use esp32_music_server.Server.Range.Serve.{write_range}
use esp32_music_server.Server.Served.{Serves, upload_then_request, upload-serves}
use esp32_music_server.Ram.{recorder}
use esp32_music_server.Ram.Named.{Shelf, named}
use esp32_music_server.Ram.Serves.{named-ServerLaws}

abbrev usize_32 : ℕ
usize_32 = 4294967296

abbrev empty_shelf : Shelf
empty_shelf = record { next = 0; open_dirs = []; open_files = []; texts = [] }

-- A song in one chunk, which comes in two reads.
abbrev song : List (List BodyRead)
song = (received (codes "ab") ∷ received (codes "c") ∷ []) ∷ []

abbrev body_of : Out ℕ (CardState (Unit {0}) Shelf × Bytes) (Unit {0}) → Bytes
body_of (ok x s) = s.1
body_of (err e s) = s.1
body_of (panic s) = []
body_of (hang s) = []

abbrev sent_behind : Out FManError (CardState (Unit {0}) Shelf) (Option RangeReply) → Bytes
sent_behind (ok (some (partial_content state headers)) s) =
    body_of (write_range named recorder state (codes "x") (s, []))
sent_behind _ = []

song_served :
    sent_behind (
      upload_then_request named usize_32
        (codes "music")
        (codes "1.mp3")
        song
        1
        (active empty_shelf 7))
    ≡ codes "bc"
unfolding upload overwrite to_string handle_range_request write_range chunk_offset receive_loop
    is_card_active
song_served = refl

upload-serves_example :
    Ensures {S = CardState (Unit {0}) Shelf}
      (λ reply. OnCard 7 (
        Serves
          (Unit {0})
          named-ServerLaws
          usize_32
          (codes "music")
          (codes "1.mp3")
          7
          (codes "x")
          []
          (whole_text song)
          1
          reply))
      (λ _ _. ⊥)
      (upload_then_request named usize_32
        (codes "music")
        (codes "1.mp3")
        song
        1
        (active empty_shelf 7))
unfolding IsChunked whole_text body_text
upload-serves_example =
    upload-serves (Unit {0}) named-ServerLaws usize_32 (codes "music") (codes "1.mp3") 7 (codes "x")
      [] song 1 empty_shelf (omega arith) (omega arith) refl tt (omega arith) (omega arith)
