-- ===== src/Tests/FsTests.antt =====
-- server/src/fs.rs at a concrete file.
use esp32_music_server.Prelude.{Bytes, false, ◌≡◌, refl, [], ◌∷◌, ◌++◌, codes, arith}
use esp32_music_server.Run.{Ensures, returns, fails, ok, good}
use esp32_music_server.Sdmmc.{DirEntry}
use esp32_music_server.FileManager.{CardState, file, active, close_file_type}
use esp32_music_server.Server.Writer.{lift_vm, lift_writer}
use esp32_music_server.Server.Stream.Laws.{SentFront}
use esp32_music_server.Server.Fs.{Texts, view_loop, view_file, write_fs_chunks}
use esp32_music_server.Server.Fs.View.{EofLaws}
use esp32_music_server.Server.Fs.Whole.{page_of, view_file-SendsText}
use esp32_music_server.Sdmmc.Handles.{Opens}
use esp32_music_server.Server.Session.{InSession}
use esp32_music_server.Server.Fs.Broken.{Refuses, write_fs_chunks-Refused}
use esp32_music_server.Ram.{Disk, ram, disk_of, recorder, broken_pipe}
use esp32_music_server.Ram.Meets.{ram-HandleLaws, ram-StreamLaws}

ram-EofLaws : EofLaws ram-StreamLaws
ram-EofLaws = record {
  eof_is = λ f s. returns (refl, record { content_is = refl; cursor_is = refl; sent_is = refl });
}

abbrev some_texts : Texts
some_texts = record {
  dir_page = codes "(dir)";
  file_page = codes "(file)";
  debug_sd = λ e. codes "E";
  debug_error = λ e. codes "F";
}

abbrev notes : DirEntry
notes = record {
  base_name = codes "NOTES";
  extension = codes "TXT";
  size = 5;
  is_directory = false;
  is_volume = false;
}

-- A text file, with a buffer of two bytes; its handle is closed.
viewed :
    write_fs_chunks {D = Unit {0}} ram recorder some_texts 2 4
      (good (file notes 0))
      (active (record (disk_of (codes "hello")) { files = 0 ∷ [] }) 7, [])
    ≡ ok tt
        (active (record (disk_of (codes "hello")) { cursor = 5 }) 7, codes "<pre>hello</pre>(file)")
unfolding write_fs_chunks view_file view_loop close_file_type
viewed = refl

view_file-SendsText_example :
    Ensures
      (λ _ s'.
        ram-StreamLaws.views.sent s'
        ≡ [] ++ page_of notes.extension (codes "hello") some_texts.file_page)
      (λ _.
        SentFront ram-StreamLaws.views []
          (page_of notes.extension (codes "hello") some_texts.file_page))
      (view_file
        (lift_vm ram)
        (lift_writer recorder)
        some_texts
        2
        6
        notes
        0
        (disk_of (codes "hello"), []))
view_file-SendsText_example =
    view_file-SendsText ram-StreamLaws ram-EofLaws some_texts 2 0 (codes "hello") (λ t. returns tt)
      (λ t. returns tt) (omega arith) 6 (omega arith) notes [] (disk_of (codes "hello"), [])
      (record { content_is = refl; cursor_is = refl; sent_is = refl })

-- The view of an open file over a broken connection.
broken_pipe-Refuses : Refuses broken_pipe
broken_pipe-Refuses chunk w = fails tt

abbrev open_notes : Disk
open_notes = record (disk_of (codes "hello")) { files = 0 ∷ [] }

write_fs_chunks-Refused_example :
    Ensures {S = CardState (Unit {0}) Disk × Bytes}
      (λ _ _. ⊥)
      (λ _. InSession 7 (λ t.
        Opens ram-HandleLaws.tables t.0
          (ram-HandleLaws.tables.dirs open_notes)
          (ram-HandleLaws.tables.files open_notes)))
      (write_fs_chunks ram broken_pipe some_texts 2 4
        (good (file notes 0))
        (active open_notes 7, []))
write_fs_chunks-Refused_example =
    write_fs_chunks-Refused (Unit {0}) ram-HandleLaws broken_pipe some_texts broken_pipe-Refuses 2 3
      notes 0 open_notes [] 7
