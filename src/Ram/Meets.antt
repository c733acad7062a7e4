-- ===== src/Ram/Meets.antt =====
-- The volume manager in memory meets the laws.
use esp32_music_server.Prelude.{
  ℕ, ◌≤◌, ◌≡◌, refl, sym, true, false, List, [], ◌∷◌, append-nil, Bytes, length, leb, elem, arith,
  ◌⊎◌, inl, inr, Bool-cases,
}
use esp32_music_server.Run.{Ensures, returns, fails, Ensures-if, Ensures-weaken, ok, err}
use esp32_music_server.Sdmmc.{not_found, other}
use esp32_music_server.Sdmmc.Handles.{Tables, HandleLaws}
use esp32_music_server.Server.Writer.{lift_vm, lift_writer}
use esp32_music_server.Server.Stream.Laws.{Views, StreamLaws}
use esp32_music_server.Ram.{
  Disk, fresh, push_dir, push_file, move_to, ram, recorder, broken_pipe, is_dir_name, is_missing,
  entry_of, is_gone, remove,
}

elem-fresh : (d : ℕ) (xs : List ℕ) → fresh xs ≤ d → elem d xs ≡ false
elem-fresh d [] h = refl
elem-fresh d (x ∷ xs) h = ground (arith, elem-fresh d xs)

abbrev ram_tables : Tables Disk
ram_tables = record { dirs = λ s. s.dirs; files = λ s. s.files }

pub ram-HandleLaws : HandleLaws ram
ram-HandleLaws = record {
  tables = ram_tables;
  open_root_dir_opens = λ vol s.
      returns (record { dirs_are = refl; files_are = refl }, elem-fresh _ s.dirs (omega arith));
  open_dir_opens = λ d n s.
      Ensures-if (is_dir_name n) push_dir (err not_found)
        (returns (record { dirs_are = refl; files_are = refl }, elem-fresh _ s.dirs (omega arith)))
        (fails (record { dirs_are = refl; files_are = refl }));
  close_dir_closes = λ d s. returns (record { dirs_are = refl; files_are = refl });
  open_file_opens = λ d n m s.
      Ensures-if (is_missing n) (err not_found) push_file
        (fails (record { dirs_are = refl; files_are = refl }))
        (returns
          (record { dirs_are = refl; files_are = refl }, elem-fresh _ s.files (omega arith)));
  close_file_closes = λ f s. returns (record { dirs_are = refl; files_are = refl });
  iterate_keeps = λ d s. returns (record { dirs_are = refl; files_are = refl });
  find_keeps = λ d n s.
      Ensures-if (is_missing n) (err not_found) (ok (entry_of n (length s.text)))
        (fails (record { dirs_are = refl; files_are = refl }))
        (returns (record { dirs_are = refl; files_are = refl }));
  make_dir_keeps = λ d n s. returns (record { dirs_are = refl; files_are = refl });
  delete_keeps = λ d n s.
      Ensures-if (is_gone s n) (err not_found) (remove n)
        (fails (record { dirs_are = refl; files_are = refl }))
        (returns (record { dirs_are = refl; files_are = refl }));
  flush_keeps = λ f s. returns (record { dirs_are = refl; files_are = refl });
  length_keeps = λ f s. returns (record { dirs_are = refl; files_are = refl });
  eof_keeps = λ f s. returns (record { dirs_are = refl; files_are = refl });
  seek_keeps = λ f n s.
      Ensures-if (leb n (length s.text)) (move_to n) (err (other 1))
        (returns (record { dirs_are = refl; files_are = refl }))
        (fails (record { dirs_are = refl; files_are = refl }));
  read_keeps = λ f n s. returns (record { dirs_are = refl; files_are = refl });
  write_keeps = λ f bs s. returns (record { dirs_are = refl; files_are = refl });
}

abbrev ram_views : Views (Disk × Bytes)
ram_views = record { content = λ s f. s.0.text; cursor = λ s f. s.0.cursor; sent = λ s. s.1 }

pub seek_ram :
    {W : Type 0} (n : ℕ) (s : Disk × W)
    → (leb n (length s.0.text) ≡ true) ⊎ (leb n (length s.0.text) ≡ false)
    → Ensures
        (λ _ s'. (s'.0.text ≡ s.0.text) × (s'.0.cursor ≡ n) × (s'.1 ≡ s.1))
        (λ _ s'. s'.1 ≡ s.1)
        ((lift_vm {W = W} ram).seek_from_start 0 n s)
seek_ram n s (inl inside) = rw inside (returns (refl, refl, refl))
seek_ram n s (inr outside) = rw outside (fails refl)

abbrev pub ram-StreamLaws : StreamLaws (lift_vm ram) (lift_writer recorder)
ram-StreamLaws = record {
  views = ram_views;
  read_reads =
      λ f n s. returns (refl, record { content_is = refl; cursor_is = refl; sent_is = refl });
  seek_seeks = λ f n s.
      Ensures-weaken (seek_ram n s (Bool-cases (leb n (length s.0.text))))
        (λ _ _ (a, b, c). record { content_is = a; cursor_is = b; sent_is = c }) (λ _ _ e. e);
  length_is = λ f s. returns (refl, record { content_is = refl; cursor_is = refl; sent_is = refl });
  open_root_dir_keeps =
      λ vol f s. returns (record { content_is = refl; cursor_is = refl; sent_is = refl });
  close_dir_keeps =
      λ d f s. returns (record { content_is = refl; cursor_is = refl; sent_is = refl });
  close_file_keeps = λ f s. returns refl;
  write_sends =
      λ chunk f s. returns (record { content_is = refl; cursor_is = refl; sent_is = refl });
  finalize_sends = λ s. returns refl;
}

pub ram-StreamLaws_broken : StreamLaws (lift_vm ram) (lift_writer broken_pipe)
ram-StreamLaws_broken = record {
  views = ram_views;
  read_reads = ram-StreamLaws.read_reads;
  seek_seeks = ram-StreamLaws.seek_seeks;
  length_is = ram-StreamLaws.length_is;
  open_root_dir_keeps = ram-StreamLaws.open_root_dir_keeps;
  close_dir_keeps = ram-StreamLaws.close_dir_keeps;
  close_file_keeps = ram-StreamLaws.close_file_keeps;
  write_sends = λ chunk f s.
      fails (record { front = []; rest = chunk; parts = refl; sent_is = sym (append-nil _) });
  finalize_sends = λ s. fails refl;
}

pub ram-dirs : (s : Disk) → ram-HandleLaws.tables.dirs s ≡ s.dirs
unfolding ram-HandleLaws
ram-dirs s = refl
