-- ===== src/Tests/ListTests.antt =====
-- The pages of server/src/list.rs and server/src/fs.rs at a concrete table and directory.
use esp32_music_server.Prelude.{
  ℕ, ◌≡◌, refl, sym, ap, ◌∙◌, append-nil, true, false, ◌⊎◌, inl, inr, Bool-cases, List, [], ◌∷◌,
  ◌++◌, Bytes, codes,
}
use esp32_music_server.Run.{returns, fails, ok, err}
use esp32_music_server.Run.Settles.{Settles}
use esp32_music_server.Database.{Row, TableId}
use esp32_music_server.Server.Writer.{lift_vm, lift_db, lift_writer}
use esp32_music_server.Server.Page.{Quiet, PageView, PageLaws, SentPart, SentPart-refl}
use esp32_music_server.Server.Upload.{file_row}
use esp32_music_server.Server.List.{ListTexts, send_list}
use esp32_music_server.Server.List.Body.{items, ListLaws}
use esp32_music_server.Server.List.Body.Sends.{Lists, send_list-Lists}
use esp32_music_server.Std.Decimal.{to_string}
use esp32_music_server.Server.List.{send_rows, send_table}
use esp32_music_server.Sdmmc.{SdError, RawDirectory, DirEntry}
use esp32_music_server.Server.Page.{SentSome}
use esp32_music_server.Server.Fs.{Texts, send_dir}
use esp32_music_server.Server.Fs.Dir.{lines, DirLaws, send_dir-Sent}
use esp32_music_server.Ram.{entry_of, Disk, ram, disk_of, recorder, is_dir_name}
use esp32_music_server.Ram.Tables.{ram_db, table_id, rows_of}

abbrev list_texts : ListTexts
list_texts = record {
  list_page = codes "(list)";
  debug_sd = λ e. codes "E";
  debug_db = λ e. codes "D";
}

abbrev song_row : Row
song_row = file_row 7 (record { name = codes "Song"; ext = codes "mp3"; size = 9 })

-- One song, in the table of the music.
abbrev with_song : Disk
with_song = record (disk_of []) { rows = (1, song_row) ∷ [] }

abbrev list_view : PageView (Disk × Bytes) (TableId → List Row)
list_view = record { sent = λ s. s.1; kept = λ s t. rows_of s.0.rows t }

abbrev list_page_laws : PageLaws (lift_writer {V = Disk} recorder) list_view
list_page_laws = record {
  write_sends = λ chunk s. returns (record { sent_is = refl; kept_is = refl });
  fmt_sends = λ text s. returns (record { sent_is = refl; kept_is = refl });
  finalize_sends = λ s. returns (SentPart-refl s);
}

unsent :
    (s : Disk × Bytes) {s' : Disk × Bytes}
    → s'.1 ≡ s.1
    → s'.0.rows ≡ s.0.rows
    → SentPart list_view s [] s'
unsent s e k = record { sent_is = e ∙ sym (append-nil s.1); kept_is = ap rows_of k }

opened-Quiet :
    (d : ℕ) (n : Bytes) (s : Disk × Bytes)
    → (is_dir_name n ≡ true) ⊎ (is_dir_name n ≡ false)
    → Quiet list_view s ((lift_vm ram).open_dir d n s)
opened-Quiet d n s (inl known) = rw known (returns (unsent s refl refl))
opened-Quiet d n s (inr unknown) = rw unknown (fails (SentPart-refl s))

abbrev list_laws : ListLaws (lift_vm ram) (lift_db ram_db) (lift_writer recorder)
list_laws = record {
  view = list_view;
  id_of = table_id;
  page = list_page_laws;
  open_dir_quiet = λ d n s. opened-Quiet d n s (Bool-cases (is_dir_name n));
  close_dir_quiet = λ d s. returns (unsent s refl refl);
  init_quiet = λ d s. returns (SentPart-refl s);
  drop_quiet = λ db s. SentPart-refl s;
  get_table_finds = λ db n s. returns (refl, SentPart-refl s);
  scan_finds = λ db t s. returns (([], append-nil (rows_of s.0.rows t)), SentPart-refl s);
}

-- The page of the songs.
shown :
    send_list
      (lift_vm ram)
      (lift_db ram_db)
      (lift_writer recorder)
      list_texts
      (codes "music")
      0
      (with_song, [])
    ≡ ok tt (
      with_song,
      codes
          "<div id=\"list\"><div><span class=\"size\">9 B</span><a>7.mp3;Song</a></div><br></div>(list)",
    )
unfolding send_list send_rows send_table to_string
shown = refl

send_list-Lists_example :
    Lists list_laws list_texts
      (codes "music")
      0
      (with_song, [])
      (send_list
        (lift_vm ram)
        (lift_db ram_db)
        (lift_writer recorder)
        list_texts
        (codes "music")
        0
        (with_song, []))
unfolding items
send_list-Lists_example =
    send_list-Lists list_laws list_texts (codes "music") 0 (with_song, []) _ refl

abbrev dir_view : PageView (Disk × Bytes) (RawDirectory → List DirEntry)
dir_view = record { sent = λ s. s.1; kept = λ s d. entry_of (codes "music") 0 ∷ [] }

abbrev dir_page_laws : PageLaws (lift_writer {V = Disk} recorder) dir_view
dir_page_laws = record {
  write_sends = λ chunk s. returns (record { sent_is = refl; kept_is = refl });
  fmt_sends = λ text s. returns (record { sent_is = refl; kept_is = refl });
  finalize_sends = λ s. returns (SentPart-refl s);
}

abbrev dir_laws : DirLaws (lift_vm ram) (lift_writer recorder)
dir_laws = record {
  view = dir_view;
  page = dir_page_laws;
  iterate_gives = λ d s. returns (refl, SentPart-refl s);
}

abbrev page_texts : Texts
page_texts = record {
  dir_page = codes "(dir)";
  file_page = codes "(file)";
  debug_sd = λ e. codes "E";
  debug_error = λ e. codes "F";
}

send_dir-Sent_example :
    Settles
      (λ _.
        SentPart dir_laws.view
          (disk_of [], [])
          (lines (dir_laws.view.kept (disk_of [], []) 0) ++ page_texts.dir_page))
      (λ _.
        SentSome dir_laws.view
          (disk_of [], [])
          (lines (dir_laws.view.kept (disk_of [], []) 0) ++ page_texts.dir_page))
      (λ s'.
        (e : SdError) × ((lift_vm ram).iterate_dir 0 (disk_of [], []) ≡ err e s')
        × SentPart dir_laws.view (disk_of [], []) [] s')
      (send_dir (lift_vm ram) (lift_writer recorder) page_texts 0 (disk_of [], []))
send_dir-Sent_example = send_dir-Sent dir_laws page_texts 0 (disk_of [], [])
