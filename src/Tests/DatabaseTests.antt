-- ===== src/Tests/DatabaseTests.antt =====
-- server/src/upload.rs at a concrete request, and a start on embassy.
use esp32_music_server.Prelude.{◌<◌, ◌≡◌, refl, true, [], ◌∷◌, codes}
use esp32_music_server.Run.{Ensures}
use esp32_music_server.FileManager.{CardState, active, count_tracker_table}
use esp32_music_server.FileManager.OnCard.{OnCard}
use esp32_music_server.Server.Upload.{NewQuery, actual_name, id_limit, counter_row, new}
use esp32_music_server.Server.Upload.Tables.{AtMostFile, Reply}
use esp32_music_server.Server.Upload.Registers.{new-registers}
use esp32_music_server.FileManager.Init.{init_embassy}
use esp32_music_server.FileManager.Init.Rows.{Grown}
use esp32_music_server.FileManager.Init.Counters.{Counted, init_embassy-Counted}
use esp32_music_server.Database.{chars}
use esp32_music_server.Database.Tables.{Same}
use esp32_music_server.Server.Delete.{handle_delete}
use esp32_music_server.Server.Delete.Rows.{Gone, handle_delete-Removed}
use esp32_music_server.Ram.{Disk, ram, disk_of}
use esp32_music_server.Ram.Tables.{ram_db, ram-DatabaseLaws}
use esp32_music_server.Ram.Kept.{files_made, files_not_gone, ram-CreationLaws, ram-DeletionLaws}

abbrev song : NewQuery
song = record { name = codes "Song"; ext = codes "mp3"; size = 9 }

-- The counter of the music stands at 7.
abbrev counted : Disk
counted = record (disk_of []) { rows = (0, counter_row (codes "music") 7) ∷ [] }

new-registers_example :
    Ensures {S = CardState (Unit {0}) Disk}
      (λ reply. OnCard 3 (λ s'.
        (7 < id_limit)
        × Reply ram-DatabaseLaws.look
            (ram-DatabaseLaws.id_of count_tracker_table)
            (ram-DatabaseLaws.id_of (codes "music"))
            (codes "music")
            song
            7
            counted
            reply
            s'
        × (files_made.has s' (actual_name 7 song.ext ∷ codes "music" ∷ []) ≡ true)))
      (λ _. OnCard 3 (
        AtMostFile ram-DatabaseLaws.look
          (ram-DatabaseLaws.id_of count_tracker_table)
          (ram-DatabaseLaws.id_of (codes "music"))
          (codes "music")
          song
          7
          counted))
      (new ram ram_db (codes "music") song (active counted 3))
new-registers_example =
    new-registers ram-DatabaseLaws files_made ram-CreationLaws (codes "music") song 7 counted 3 refl

-- A start on a card that counts its music already.
init_embassy-Counted_example :
    Ensures {S = CardState (Unit {0}) Disk}
      (λ _.
        OnCard 3
          (Counted ram-DatabaseLaws.look (ram-DatabaseLaws.id_of count_tracker_table) counted))
      (λ _. OnCard 3 (Grown ram-DatabaseLaws.look counted))
      (init_embassy ram ram_db (active counted 3))
init_embassy-Counted_example = init_embassy-Counted ram-DatabaseLaws counted 3

-- A table with two songs.
abbrev songs : Disk
songs = record (disk_of []) {
  rows =
      (1, chars (codes "1.mp3") ∷ [])
      ∷ (1, chars (codes "2.mp3") ∷ [])
      ∷ (2, chars (codes "1.mp3") ∷ [])
      ∷ [];
}

handle_delete-Removed_example :
    Ensures {S = CardState (Unit {0}) Disk}
      (λ reply. OnCard 3 (λ s'.
        (reply ≡ codes "success")
        × Gone ram-DatabaseLaws files_not_gone ram-DeletionLaws
            (codes "music")
            (codes "1.mp3")
            songs
            s'))
      (λ _. OnCard 3 (Same ram-DatabaseLaws.look songs))
      (handle_delete ram ram_db (codes "music") (codes "1.mp3") (active songs 3))
handle_delete-Removed_example =
    handle_delete-Removed ram-DatabaseLaws files_not_gone ram-DeletionLaws (codes "music")
      (codes "1.mp3") songs 3
