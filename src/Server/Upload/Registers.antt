-- ===== src/Server/Upload/Registers.antt =====
-- What `new` does to the tables of the database.
use esp32_music_server.Prelude.{
  ℕ, ◌+◌, ◌<◌, ◌≡◌, Option, refl, sym, ap, ◌∙◌, true, false, ◌&&◌, some, [], ◌∷◌, Bytes, ◌==◌, same,
  leb, if◌then◌else◌, arith, ◌⊎◌, inl, inr, Bool-cases,
}
use esp32_music_server.Run.{
  Out, Act, ok, Ensures, returns, fails, Ensures-bind, Ensures-map_err, Ensures-if_known, both,
  Ensures-attempt, Ensures-then_drop, ignore, and_then, out_map_err, out_then_drop,
}
use esp32_music_server.Sdmmc.{RawDirectory, RawVolume, VolumeManager, read_write_create}
use esp32_music_server.FileManager.{
  with_root_dir, FManError, server_err, CardState, active, count_tracker_table, db_dir,
}
use esp32_music_server.FileManager.OnCard.{OnCard, Ensures-on_card}
use esp32_music_server.Database.{chars, Row, pos, TableId, DatabaseOps}
use esp32_music_server.Database.Files.{FileLaws}
use esp32_music_server.Server.Upload.Laws.{CreationLaws}
use esp32_music_server.Sdmmc.Store.{FullPath}
use esp32_music_server.Server.Range.Request.{invalid_dir}
use esp32_music_server.Server.Upload.{
  NewQuery, actual_name, file_row, counter_row, check_id, id_limit, register, create, new_entry,
  new_action, new,
}
use esp32_music_server.Database.Tables.{found, Same, SameAfter, DatabaseLaws}
use esp32_music_server.Server.Upload.Tables.{AtMostFile, Reply, Reply-keep, AtMostFile-keep}

module _ {V B : Type 0} {vm : VolumeManager V} {ops : DatabaseOps V B} (laws : DatabaseLaws vm ops)
    (files : FileLaws vm ops) (creates : CreationLaws files) (dir_name : Bytes) (query : NewQuery)
    (id : ℕ) (s : V) where
  abbrev t : TableId
  t = laws.id_of count_tracker_table

  abbrev m : TableId
  m = laws.id_of dir_name

  -- Where the new file is.
  abbrev path : FullPath
  path = actual_name id query.ext ∷ dir_name ∷ []

  -- The run ends with the file made and registered, or fails with at most its row put.
  abbrev Registers : Out FManError V Bytes → Type 0
  Registers =
      Ensures
        (λ reply s'.
          (id < id_limit)
          × Reply laws.look t m dir_name query id s reply s'
          × (files.has s' path ≡ true))
        (λ _. AtMostFile laws.look t m dir_name query id s)

  -- Behind a call that leaves the tables as they were.
  then_call :
      {E A : Type 0} {P : A → V → Type 0} {s₁ : V} (text : Bytes) {r : Out E V A}
      (f : A → Act FManError V Bytes)
      → Same laws.look s s₁
      → SameAfter laws.look s₁ r
      → Ensures P (λ _ _. Unit {0}) r
      → ((a : A) (s₂ : V) → Same laws.look s s₂ → P a s₂ → Registers (f a s₂))
      → Registers (and_then (out_map_err (λ _. server_err text) r) f)
  then_call text f h call gives k =
      Ensures-bind f
        (Ensures-map_err _ (both call gives) (λ _ _ (g, _). inl (λ t' k. g t' k ∙ h t' k)))
        (λ a s₂ (g, p). k a s₂ (λ t' k. g t' k ∙ h t' k) p)

  -- A directory that is closed behind the run.
  then_close :
      (d : RawDirectory) {r : Out FManError V Bytes}
      → Registers r
      → Registers (out_then_drop r (ignore (vm.close_dir d)))
  then_close d h =
      Ensures-then_drop _ h
        (λ reply s₁ (small, g, made).
          Ensures-attempt _
            (both (laws.close_dir_keeps d s₁) (creates.close_dir_leaves d path s₁ made))
            (λ _ _ (k, still).
              returns (small, Reply-keep laws.look t m dir_name query id s reply g k, still))
            (λ _ _ (k, still).
              returns (small, Reply-keep laws.look t m dir_name query id s reply g k, still)))
        (λ _ s₁ g.
          Ensures-attempt _ (laws.close_dir_keeps d s₁)
            (λ _ _ k. returns (AtMostFile-keep laws.look t m dir_name query id s g k))
            (λ _ _ k. returns (AtMostFile-keep laws.look t m dir_name query id s g k)))

  -- The file's row, put over equal rows.
  put_over :
      (t' : TableId) (k : Bytes) {o o' : Option Row}
      → o ≡ o'
      → (if (m == t') && same (actual_name id query.ext) k then some (file_row id query) else o)
        ≡ (if (m == t') && same (actual_name id query.ext) k then some (file_row id query) else o')
  put_over t' k e =
      ap
        (λ o.
          if (m == t') && same (actual_name id query.ext) k then some (file_row id query) else o)
        e

  register-Registers :
      (valid : invalid_dir dir_name ≡ false) (db : B) (s₁ : V)
      → id < id_limit
      → Same laws.look s s₁
      → files.has s₁ path ≡ true
      → Registers (register vm ops db t m dir_name query id s₁)
  unfolding register
  register-Registers valid db s₁ small h made =
      Ensures-bind _
        (Ensures-map_err _
          (both (laws.insert_puts db m (actual_name id query.ext) _ s₁)
            (creates.insert_leaves db m _ (actual_name id query.ext) dir_name s₁ valid made))
          (λ _ _ ((_, g), _). inl (λ t' k. g t' k ∙ h t' k)))
        (λ _ s₂ ((absent, put), made₂).
          Ensures-bind _
            (Ensures-map_err _
              (both (laws.update_puts db t dir_name _ s₂)
                (creates.update_leaves db t _ _ (actual_name id query.ext) dir_name s₂ valid made₂))
              (λ _ _ (g, _). inr (
                sym (h m (actual_name id query.ext)) ∙ absent,
                λ t' k. g t' k ∙ put t' k ∙ put_over t' k (h t' k),
              )))
            (λ _ s₃ (g, made₃). returns (
              small,
              (
                refl,
                (
                  sym (h m (actual_name id query.ext)) ∙ absent,
                  λ t' k.
                      g t' k
                      ∙ ap
                          (λ o.
                            if (t == t') && same dir_name k
                            then some (counter_row dir_name (id + 1))
                            else o)
                          (put t' k ∙ put_over t' k (h t' k)),
                ),
              ),
              made₃,
            )))

  create-Registers :
      (valid : invalid_dir dir_name ≡ false) (db : B) (root : RawDirectory) (s₁ : V)
      → id < id_limit
      → Same laws.look s s₁
      → files.At s₁ root []
      → Registers (create vm ops db t m dir_name query root id s₁)
  unfolding create
  create-Registers valid db root s₁ small h at_root =
      then_call _ _ h (laws.open_dir_keeps root dir_name s₁)
        (files.open_dir_at root dir_name [] s₁ at_root)
        (λ d s₂ h₂ (there, _). then_close d (
          then_call _ _ h₂ (laws.open_file_keeps d (actual_name id query.ext) read_write_create s₂)
            (creates.open_file_creates d (actual_name id query.ext) (dir_name ∷ []) s₂ there)
            (λ f s₃ h₃ made.
              then_call _ _ h₃ (laws.close_file_keeps f s₃)
                (creates.close_file_leaves f path s₃ made)
                (λ _ s₄ h₄ made₄. register-Registers valid db s₄ small h₄ made₄))))

  checked_id :
      (valid : invalid_dir dir_name ≡ false) (db : B) (root : RawDirectory) (s₁ : V)
      → Same laws.look s s₁
      → files.At s₁ root []
      → (leb id_limit id ≡ true) ⊎ (leb id_limit id ≡ false)
      → Registers (and_then (check_id (pos id) s₁) (create vm ops db t m dir_name query root))
  checked_id valid db root s₁ h at_root (inl over) = rw over (fails (inl (λ t' k. h t' k)))
  checked_id valid db root s₁ h at_root (inr below) =
      let small : id < id_limit = ground arith in
      rw below (create-Registers valid db root s₁ small h at_root)

  new_entry-Registers :
      (valid : invalid_dir dir_name ≡ false) (db : B) (root : RawDirectory) (s₁ : V)
      → laws.look s t dir_name ≡ some (counter_row dir_name id)
      → Same laws.look s s₁
      → files.At s₁ root []
      → Registers (new_entry vm ops db dir_name query root s₁)
  unfolding new_entry
  new_entry-Registers valid db root s₁ counted h at₁ =
      Ensures-bind _
        (Ensures-map_err _
          (both (laws.get_table_finds db count_tracker_table s₁)
            (files.get_table_at db count_tracker_table root [] s₁ at₁))
          (λ _ _ (g, _). inl (λ t' k. g t' k ∙ h t' k)))
        (λ t₁ s₂ ((t_is, g₂), at₂).
          Ensures-bind _
            (Ensures-map_err _
              (both (laws.get_table_finds db dir_name s₂)
                (files.get_table_at db dir_name root [] s₂ at₂))
              (λ _ _ (g, _). inl (λ t' k. g t' k ∙ g₂ t' k ∙ h t' k)))
            (λ m₁ s₃ ((m_is, g₃), at₃).
              let h₃ : Same laws.look s s₃ = λ t' k. g₃ t' k ∙ g₂ t' k ∙ h t' k in
              rw t_is (
                rw m_is (
                  Ensures-attempt _
                    (both (laws.query_finds db t dir_name s₃)
                      (creates.query_at db t (some (chars dir_name)) root [] s₃ at₃))
                    (λ rows s₄ ((rows_are, g), at₄).
                      let only : rows ≡ counter_row dir_name id ∷ [] =
                        rows_are ∙ ap found (h₃ t dir_name ∙ counted) in
                      rw only (
                        checked_id valid db root s₄ (λ t' k. g t' k ∙ h₃ t' k) at₄
                          (Bool-cases (leb id_limit id))))
                    (λ _ s₄ (g, _). fails (inl (λ t' k. g t' k ∙ h₃ t' k)))))))

  then_drop_db :
      (valid : invalid_dir dir_name ≡ false) (db : B) {r : Out FManError V Bytes}
      → Registers r
      → Registers (out_then_drop r (λ s'. ok tt (ops.drop_db db s')))
  then_drop_db valid db h =
      Ensures-then_drop _ h
        (λ reply s₁ (small, g, made). returns (
          small,
          Reply-keep laws.look t m dir_name query id s reply g (laws.drop_keeps db s₁),
          creates.drop_leaves db (actual_name id query.ext) dir_name s₁ valid made,
        ))
        (λ _ s₁ g.
          returns (AtMostFile-keep laws.look t m dir_name query id s g (laws.drop_keeps db s₁)))

  new_action-Registers :
      (root : RawDirectory) (s₁ : V)
      → laws.look s t dir_name ≡ some (counter_row dir_name id)
      → Same laws.look s s₁
      → files.At s₁ root []
      → Registers (new_action vm ops dir_name query root s₁)
  unfolding new_action
  new_action-Registers root s₁ counted h at_root = then_close root (
      Ensures-if_known (invalid_dir dir_name) _ _ (λ _. fails (inl (λ t' k. h t' k)))
        (λ valid.
          then_call _ _ h (laws.open_dir_keeps root db_dir s₁)
            (files.open_dir_at root db_dir [] s₁ at_root)
            (λ raw s₂ h₂ (_, at₂).
              then_call _ _ h₂ (laws.init_keeps raw s₂) (files.init_at raw root [] s₂ at₂)
                (λ db s₃ h₃ at₃.
                  then_drop_db valid db (new_entry-Registers valid db root s₃ counted h₃ at₃)))))

-- The creation of a file, on an active card whose counter for the directory stands at `id`, neither
-- panics nor waits for ever. Where it succeeds, the number was below the limit, the reply names
-- "id.ext", no row had that name before, the tables differ in two rows, the file's, with the name and
-- the size of the query, and the counter's, which stands at id + 1, and the directory has the file
-- "id.ext". Where it fails, no row has changed, or there was no row of "id.ext", and exactly it was put.
pub new-registers :
    {D V B : Type 0} {vm : VolumeManager V} {ops : DatabaseOps V B} (laws : DatabaseLaws vm ops)
    (files : FileLaws vm ops) (creates : CreationLaws files) (dir_name : Bytes) (query : NewQuery)
    (id : ℕ) (s : V) (vol : RawVolume)
    → laws.look s (laws.id_of count_tracker_table) dir_name ≡ some (counter_row dir_name id)
    → Ensures {S = CardState D V}
        (λ reply. OnCard vol (λ s'.
          (id < id_limit)
          × Reply laws.look
              (laws.id_of count_tracker_table)
              (laws.id_of dir_name)
              dir_name
              query
              id
              s
              reply
              s'
          × (files.has s' (actual_name id query.ext ∷ dir_name ∷ []) ≡ true)))
        (λ _. OnCard vol (
          AtMostFile laws.look
            (laws.id_of count_tracker_table)
            (laws.id_of dir_name)
            dir_name
            query
            id
            s))
        (new vm ops dir_name query (active s vol))
unfolding new with_root_dir
new-registers {vm} {ops} laws files creates dir_name query id s vol counted = Ensures-on_card vol (
    Ensures-bind _
      (Ensures-map_err _ (both (laws.open_root_keeps vol s) (files.open_root_at vol s))
        (λ _ _ (g, _). inl (λ t' k. g t' k)))
      (λ root s₁ (h, at_root).
        new_action-Registers laws files creates dir_name query id s root s₁ counted h at_root))
