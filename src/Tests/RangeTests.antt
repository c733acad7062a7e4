-- ===== src/Tests/RangeTests.antt =====
-- server/src/range.rs at concrete requests.
use esp32_music_server.Prelude.{ℕ, ◌≡◌, refl, some, [], codes, take, drop, arith}
use esp32_music_server.Run.{Ensures, fails, ok}
use esp32_music_server.FileManager.{CardState, active, is_card_active}
use esp32_music_server.FileManager.OnCard.{OnCard}
use esp32_music_server.Server.Session.{Written, Panics}
use esp32_music_server.Server.Range.Header.{from_request_parts}
use esp32_music_server.Server.Range.Header.RoundTrip.{range_header, from_request_parts-range_header}
use esp32_music_server.Server.Range.Request.{RangeState, handle_range_request}
use esp32_music_server.Server.Range.Request.Window.{fetch, fetch-all}
use esp32_music_server.Server.Range.Request.Opening.{AfterReply, handle_range_request-handles}
use esp32_music_server.Server.Range.Serve.{write_range}
use esp32_music_server.Server.Range.Serve.Sends.{write_range-Written}
use esp32_music_server.Server.Range.Serve.Panics.{write_range-Panics}
use esp32_music_server.Ram.{Disk, ram, disk_of, recorder, broken_pipe}
use esp32_music_server.Ram.Meets.{ram-HandleLaws, ram-StreamLaws, ram-StreamLaws_broken}

abbrev usize_32 : ℕ
usize_32 = 4294967296

from_request_parts-range_header_example :
    from_request_parts 4294967295 (some (range_header 500 (codes "999"))) ≡ 500
from_request_parts-range_header_example =
    from_request_parts-range_header 4294967295 500 (codes "999") (omega arith) (omega arith)

fetch-all_example : fetch usize_32 6 0 (codes "hello") ≡ drop 0 (codes "hello")
fetch-all_example = fetch-all usize_32 6 0 (codes "hello") (omega arith) (omega arith)

abbrev ello : RangeState
ello = record { raw_file = 0; start = 1; len = 4 }

-- A buffer of three bytes: the window goes out in two chunks, and the root and the file are closed.
streamed :
    write_range {D = Unit {0}} ram recorder ello
      (codes "xyz")
      (active (disk_of (codes "hello!")) 7, [])
    ≡ ok tt (active (record (disk_of (codes "hello!")) { cursor = 5 }) 7, codes "ello")
unfolding write_range is_card_active
streamed = refl

write_range-Written_example :
    Written {D = Unit {0}} ram-StreamLaws.views 7 []
      (take 4 (drop 1 (codes "hello!")))
      (write_range ram recorder ello (codes "xyz") (active (disk_of (codes "hello!")) 7, []))
write_range-Written_example =
    write_range-Written (Unit {0}) ram recorder ram-StreamLaws ello (codes "xyz") (codes "hello!")
      (disk_of (codes "hello!")) [] 7 refl (omega arith) (omega arith) (omega arith)

write_range-Panics_example : Panics (
    write_range {D = Unit {0}} ram broken_pipe ello
      (codes "xyz")
      (active (disk_of (codes "hello!")) 7, []))
write_range-Panics_example =
    write_range-Panics (Unit {0}) ram broken_pipe ram-StreamLaws_broken ello (codes "xyz")
      (disk_of (codes "hello!")) [] 7 (λ chunk w. fails tt) (omega arith)

handle_range_request-handles_example :
    Ensures {S = CardState (Unit {0}) Disk}
      (λ reply. OnCard 7 (
        AfterReply ram-HandleLaws.tables
          (ram-HandleLaws.tables.dirs (disk_of []))
          (ram-HandleLaws.tables.files (disk_of []))
          reply))
      (λ _ _. ⊥)
      (handle_range_request ram usize_32 (codes "music") (codes "1.mp3") 99 (active (disk_of []) 7))
handle_range_request-handles_example =
    handle_range_request-handles ram-HandleLaws usize_32 (codes "music") (codes "1.mp3") 99
      (disk_of []) 7
