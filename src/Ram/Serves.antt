-- ===== src/Ram/Serves.antt =====
-- The volume manager with named files, and a connection that records what it is sent, meet what the
-- server relies on.
use esp32_music_server.Prelude.{
  ℕ, ◌≡◌, refl, ap, ◌∷◌, Bytes, length, leb, ==-refl, Bool-cases, inl, inr, arith,
}
use esp32_music_server.Run.{Ensures, Ensures-if, returns, fails}
use esp32_music_server.Sdmmc.Store.{Stores, ReadLaws, PlaceLaws}
use esp32_music_server.Server.Writer.{lift_vm, lift_writer}
use esp32_music_server.Server.Stream.Laws.{Views, Seen, StreamLaws}
use esp32_music_server.Server.Served.{ServerLaws}
use esp32_music_server.Ram.{recorder}
use esp32_music_server.Ram.Named.{
  named_view, Shelf, named, named-StoreLaws, path_of, cursor_of, text_of, text_at, file_at-head,
  handle_behind, has_text, has_below, dir_at,
}

abbrev pub named_views : Views (Shelf × Bytes)
named_views = record {
  content = λ s f. text_of s.0 f;
  cursor = λ s f. cursor_of s.0 f;
  sent = λ s. s.1;
}

-- Moving a cursor keeps the text of its file.
pub moved-Seen :
    (f n : ℕ) (s : Shelf) (w : Bytes)
    → Seen named_views
        (record s { open_files = (f, (path_of s f, n)) ∷ s.open_files }, w)
        f
        (text_of s f)
        n
        w
moved-Seen f n s w =
    let head = file_at-head f (path_of s f, n) s.open_files in
    record {
      content_is = ap (λ p. text_at s.texts p.0) head;
      cursor_is = ap (λ p. p.1) head;
      sent_is = refl;
    }

pub named-ReadLaws : ReadLaws named-StoreLaws
named-ReadLaws = record {
  open_file_reads = λ d n s. returns (rw (==-refl s.next) refl, λ k. refl);
  length_reads = λ f s. returns (refl, refl, λ k. refl);
  close_dir_reads = λ d f s. returns (refl, λ k. refl);
}

find_named :
    (d : ℕ) (n : Bytes) (s : Shelf)
    → Ensures
        (λ _ s'. (named_view.place s' d ≡ named_view.place s d) × Stores named_view s s')
        (λ _. Stores named_view s)
        (named.find_directory_entry d n s)
find_named d n s =
    let k = n ∷ dir_at s.open_dirs d in
    Ensures-if (has_text s.texts k) _ _ (returns (refl, λ j. refl))
      (Ensures-if (has_below s.texts k) _ _ (returns (refl, λ j. refl)) (fails (λ j. refl)))

pub named-PlaceLaws : PlaceLaws named-StoreLaws
named-PlaceLaws = record {
  find_reads = find_named;
  open_dir_apart =
      λ d n s. returns (λ e. omega (arith, e), rw (==-refl (handle_behind s d)) refl, λ k. refl);
  close_dir_apart = λ d d' s ne. returns (refl, λ k. refl);
  close_dir_files = λ d f s. returns (refl, λ k. refl);
}

pub seek_named :
    (f n : ℕ) (s : Shelf) (w : Bytes)
    → Ensures
        (λ _ s'. Seen named_views s' f (text_of s f) n w)
        (λ _ s'. s'.1 ≡ w)
        ((lift_vm {W = Bytes} named).seek_from_start f n (s, w))
seek_named f n s w = elim (Bool-cases (leb n (length (text_of s f)))) [
  | inl inside ↦ rw inside (returns (moved-Seen f n s w))
  | inr past ↦ rw past (fails refl)
]

abbrev pub named-StreamLaws : StreamLaws (lift_vm {W = Bytes} named) (lift_writer recorder)
named-StreamLaws = record {
  views = named_views;
  read_reads = λ f n s. returns (refl, moved-Seen f _ s.0 s.1);
  seek_seeks = λ f n s. seek_named f n s.0 s.1;
  length_is = λ f s. returns (refl, record { content_is = refl; cursor_is = refl; sent_is = refl });
  open_root_dir_keeps =
      λ vol f s. returns (record { content_is = refl; cursor_is = refl; sent_is = refl });
  close_dir_keeps =
      λ d f s. returns (record { content_is = refl; cursor_is = refl; sent_is = refl });
  close_file_keeps = λ f s. returns refl;
  write_sends =
      λ chunk f s. returns (record { content_is = refl; cursor_is = refl; sent_is = refl });
  finalize_sends = λ s. returns refl;
}

abbrev pub named-ServerLaws : ServerLaws named recorder
named-ServerLaws = record {
  store = named-StoreLaws;
  reads = named-ReadLaws;
  stream = named-StreamLaws;
  one_text = λ s w f. refl;
}
