-- ===== src/Server/Chunk/Receive/Stores.antt =====
-- What a received chunk leaves in the file of its name.
use mathlib.Core.Path.{subst}
use native.Mathlib.Nat.{zero-mod}
use esp32_music_server.Prelude.{
  ℕ, ◌+◌, ◌%◌, ◌≤◌, ◌≡◌, refl, sym, ap, ◌∙◌, false, List, [], ◌∷◌, Bytes, length, arith,
}
use esp32_music_server.Run.{
  both, Act, Out, Ensures, returns, fails, Ensures-bind, Ensures-map_err, Ensures-weaken,
  Ensures-attempt, Ensures-then_drop, out_then_drop, ignore,
}
use esp32_music_server.Std.Decimal.{to_string}
use esp32_music_server.Std.Usize.{as_u32}
use esp32_music_server.Sdmmc.{RawDirectory, RawFile, VolumeManager}
use esp32_music_server.Sdmmc.Contents.{overwrite, Contents, WriteLaws}
use esp32_music_server.Sdmmc.Store.{FullPath, Stores, StoreLaws}
use esp32_music_server.FileManager.{FManError, sd_err}
use esp32_music_server.Server.Chunk.{chunk_offset}
use esp32_music_server.Server.Chunk.Receive.{
  ChunkQuery, BodyRead, received, failed, receive_loop, receive_chunk,
}
use esp32_music_server.Server.Chunk.Receive.Writes.{body_text, breaks_off, receive_loop-writes}

module _ {V : Type 0} {vm : VolumeManager V} (laws : StoreLaws vm) where
  -- The text of an open file is what is stored under its name.
  open_files : Contents V
  open_files = record {
    content = λ s f. laws.view.stored s (laws.view.path s f);
    cursor = laws.view.cursor;
  }

  open_files-WriteLaws : WriteLaws vm
  unfolding open_files
  open_files-WriteLaws = record {
    contents = open_files;
    write_writes = λ f bs s.
        Ensures-weaken (laws.write_stores f bs s)
          (λ _ s' (text, moved, same_path). record {
            content_is = ap (laws.view.stored s') same_path ∙ text;
            cursor_is = moved;
          })
          (λ _ _ _. tt);
  }

  receive_loop-path :
      (modulus : ℕ) (f : RawFile) (body : List BodyRead) (read : ℕ) (s : V)
      → Ensures
          (λ _ s'. laws.view.path s' f ≡ laws.view.path s f)
          (λ _ _. Unit {0})
          (receive_loop vm modulus f body read s)
  unfolding receive_loop
  receive_loop-path modulus f [] read s = returns refl
  receive_loop-path modulus f (failed ∷ body) read s = fails tt
  receive_loop-path modulus f (received [] ∷ body) read s = returns refl
  receive_loop-path modulus f (received (b ∷ bs) ∷ body) read s =
      Ensures-bind _ (Ensures-map_err sd_err (laws.write_stores f (b ∷ bs) s) (λ _ _ _. tt))
        (λ _ s₁ (text, moved, same_path).
          Ensures-weaken (receive_loop-path modulus f body _ s₁) (λ _ _ g. g ∙ same_path)
            (λ _ _ _. tt))

  -- The whole body stands in the file of the name.
  abbrev pub Stored : ℕ → FullPath → ℕ → List BodyRead → V → Bytes → V → Type 0
  Stored modulus k p body s n s' =
      (breaks_off body ≡ false)
      × (n ≡ to_string (length (body_text body) % modulus))
      × (p ≤ length (laws.view.stored s k))
      × (laws.view.stored s' k ≡ overwrite p (body_text body) (laws.view.stored s k))

  module _ (modulus : ℕ) (k : FullPath) (p : ℕ) (body : List BodyRead) (s : V) where
    abbrev StoresBody : Out FManError V Bytes → Type 0
    StoresBody r = Ensures (λ n. Stored modulus k p body s n) (λ _ _. Unit {0}) r

    Stored-behind :
        (n : Bytes) (a b : V)
        → Stored modulus k p body s n a
        → Stores laws.view a b
        → Stored modulus k p body s n b
    Stored-behind n a b (whole, total, fits, text) h = (whole, total, fits, h k ∙ text)

    drop_StoresBody :
        (close : Act FManError V (Unit {0})) {r : Out FManError V Bytes}
        → ((a : V) → Ensures (λ _. Stores laws.view a) (λ _ _. ⊥) (close a))
        → StoresBody r
        → StoresBody (out_then_drop r close)
    drop_StoresBody close keeps h =
        Ensures-then_drop close h
          (λ n a g.
            Ensures-weaken (keeps a) (λ _ b c. Stored-behind n a b g c) (λ _ _ never. never))
          (λ _ a _. Ensures-weaken (keeps a) (λ _ _ _. tt) (λ _ _ never. never))

  close_dir_sure :
      (d : RawDirectory) (a : V)
      → Ensures {E = FManError} (λ _. Stores laws.view a) (λ _ _. ⊥) (ignore (vm.close_dir d) a)
  close_dir_sure d a =
      Ensures-attempt _ (laws.close_dir_keeps d a) (λ _ _ g. returns g) (λ _ _ g. returns g)

  close_file_sure :
      (f : RawFile) (a : V)
      → Ensures {E = FManError} (λ _. Stores laws.view a) (λ _ _. ⊥) (ignore (vm.close_file f) a)
  close_file_sure f a =
      Ensures-attempt _ (laws.close_file_keeps f a) (λ _ _ g. returns g) (λ _ _ g. returns g)

  zero_add : (n : ℕ) → 0 + n ≡ n
  zero_add n = omega arith

  receive_at-Stored :
      (modulus : ℕ) (f : RawFile) (k : FullPath) (p : ℕ) (body : List BodyRead) (s a : V)
      → laws.view.path a f ≡ k
      → laws.view.cursor a f ≡ p
      → Stores laws.view s a
      → p ≤ length (laws.view.stored s k)
      → Ensures
          (λ n s'.
            (breaks_off body ≡ false)
            × (n ≡ length (body_text body) % modulus)
            × (laws.view.stored s' k ≡ overwrite p (body_text body) (laws.view.stored s k)))
          (λ _ _. Unit {0})
          (receive_loop vm modulus f body 0 a)
  unfolding open_files open_files-WriteLaws
  receive_at-Stored modulus f k p body s a here moved same_texts fits =
      Ensures-weaken
        (both
          (receive_loop-writes open_files-WriteLaws modulus f body 0 p (laws.view.stored s k) a
            (zero-mod modulus)
            (record { content_is = ap (laws.view.stored a) here ∙ same_texts k; cursor_is = moved })
            fits)
          (receive_loop-path modulus f body 0 a))
        (λ n s' ((whole, total, text), same_path). (
          whole,
          total ∙ ap (λ x. x % modulus) (zero_add (length (body_text body))),
          ap (laws.view.stored s') (sym (same_path ∙ here)) ∙ text,
        ))
        (λ _ _ _. tt)

  pub receive_chunk-Stored :
      (modulus : ℕ) (query : ChunkQuery) (body : List BodyRead) (dir : Bytes) (root : RawDirectory)
      (s a : V)
      → laws.view.place a root ≡ []
      → Stores laws.view s a
      → Ensures
          (λ n.
            Stored modulus (query.id ∷ dir ∷ []) (as_u32 (chunk_offset modulus query.idx)) body s n)
          (λ _ _. Unit {0})
          (receive_chunk vm modulus query body dir root a)
  unfolding receive_chunk
  receive_chunk-Stored modulus query body dir root s a at_root same_a =
      let k : FullPath = query.id ∷ dir ∷ [] in
      let p : ℕ = as_u32 (chunk_offset modulus query.idx) in
      drop_StoresBody modulus k p body s _ (close_dir_sure root) (
        Ensures-bind _ (Ensures-map_err sd_err (laws.open_dir_opens root dir a) (λ _ _ _. tt))
          (λ music b (in_dir, same_b). drop_StoresBody modulus k p body s _ (close_dir_sure music) (
            Ensures-bind _
              (Ensures-map_err sd_err (laws.open_file_opens music query.id b) (λ _ _ _. tt))
              (λ f c (named, same_c). drop_StoresBody modulus k p body s _ (close_file_sure f) (
                let here : laws.view.path c f ≡ k =
                  named ∙ ap (λ q. query.id ∷ q) (in_dir ∙ ap (λ q. dir ∷ q) at_root) in
                let texts : Stores laws.view s c = λ j. same_c j ∙ same_b j ∙ same_a j in
                Ensures-bind _ (Ensures-map_err sd_err (laws.seek_moves f p c) (λ _ _ _. tt))
                  (λ _ d (moved, fits, same_path, same_d).
                    let inside : p ≤ length (laws.view.stored s k) =
                      subst (λ t. p ≤ length t) (ap (laws.view.stored c) here ∙ texts k) fits in
                    Ensures-bind _
                      (receive_at-Stored modulus f k p body s d (same_path ∙ here) moved
                        (λ j. same_d j ∙ texts j) inside)
                      (λ n e (whole, total, text).
                        Ensures-bind _ (Ensures-map_err sd_err (laws.flush_keeps f e) (λ _ _ _. tt))
                          (λ _ z same_z.
                            returns (whole, ap to_string total, inside, same_z k ∙ text)))))))))
