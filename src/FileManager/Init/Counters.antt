-- ===== src/FileManager/Init/Counters.antt =====
-- What a start on embassy does to the tables.
use esp32_music_server.Prelude.{
  ◌≡◌, refl, sym, ap, ◌∙◌, ◌&&◌, Bool-cases, inl, inr, some, Bytes, ◌==◌, ==-refl, same,
  if◌then◌else◌,
}
use esp32_music_server.Run.{
  Out, Ensures, returns, Act, Ensures-bind, Ensures-map_err, Ensures-attempt, Ensures-then_drop,
  Ensures-weaken, and_then, out_then_drop, ignore, ok,
}
use esp32_music_server.Sdmmc.{RawDirectory, RawVolume, VolumeManager}
use esp32_music_server.FileManager.{
  FManError, sd_err, db_err, CardState, active, count_tracker_table, db_dir, files_dir, music_dir,
  with_vol_man, root_dir,
}
use esp32_music_server.FileManager.OnCard.{OnCard, Ensures-on_card}
use esp32_music_server.FileManager.Init.{
  files_table, music_table, first_row, init_tables, init_root, init_volume, init_embassy,
}
use esp32_music_server.FileManager.Init.Rows.{
  row_or, both_same, Ensured, Grown, Ensured-Grown, ensure_row-Ensured,
}
use esp32_music_server.Database.{Row, TableId, DatabaseOps}
use esp32_music_server.Database.Tables.{Lookup, Same, DatabaseLaws}
use esp32_music_server.FileManager.Init.Keeps.{
  Same-trans, Keeps, then-Keeps, ensure_dir-Keeps, ensure_table-Keeps,
}

module _ {V : Type 0} (look : Lookup V) where
  -- A row for both tables is under its key in the counters, a new one only where there was none, and
  -- no other row has changed.
  abbrev pub Counted : TableId → V → V → Type 0
  Counted ct s s' =
      (t : TableId) (k : Bytes)
      → look s' t k ≡ (
          if (ct == t) && same music_table k
          then some (row_or (look s ct music_table) (first_row music_table))
          else if (ct == t) && same files_table k
          then some (row_or (look s ct files_table) (first_row files_table))
          else look s t k)

  -- The counters that were there are there.
  pub Counted-Grown : (ct : TableId) (a b : V) → Counted ct a b → Grown look a b
  Counted-Grown ct a b c t k row there =
      c t k ∙ elim (Bool-cases ((ct == t) && same music_table k)) [
        | inl m ↦ rw m (
            ap (λ o. some (row_or o (first_row music_table)))
              (sym (both_same look ct music_table a t k m) ∙ there))
        | inr m ↦ rw m (elim (Bool-cases ((ct == t) && same files_table k)) [
          | inl f ↦ rw f (
              ap (λ o. some (row_or o (first_row files_table)))
                (sym (both_same look ct files_table a t k f) ∙ there))
          | inr f ↦ rw f there
        ])
      ]

  Grown-Same : {a b : V} → Same look a b → Grown look a b
  Grown-Same g = λ t k row there. g t k ∙ there

  Counted-join :
      (ct : TableId) (a b c : V)
      → Ensured look ct files_table (first_row files_table) a b
      → Ensured look ct music_table (first_row music_table) b c
      → Counted ct a c
  Counted-join ct a b c f m t k =
      let unmoved : look b ct music_table ≡ look a ct music_table =
        f ct music_table ∙ rw (==-refl ct) refl in
      m t k
      ∙ ap
          (λ o.
            if (ct == t) && same music_table k
            then some (row_or o (first_row music_table))
            else look b t k)
          unmoved
      ∙ ap
          (λ o.
            if (ct == t) && same music_table k
            then some (row_or (look a ct music_table) (first_row music_table))
            else o)
          (f t k)

module _ {V B : Type 0} {vm : VolumeManager V} {ops : DatabaseOps V B} (laws : DatabaseLaws vm ops)
    (s : V) where
  -- The run ends with the counters there, and keeps every row also where it fails.
  abbrev Counts : {A : Type 0} → Out FManError V A → Type 0
  Counts r =
      Ensures (λ _. Counted laws.look (laws.id_of count_tracker_table) s) (λ _. Grown laws.look s) r

  then_kept :
      {A C : Type 0} {r : Out FManError V A} (f : A → Act FManError V C)
      → Keeps laws s r
      → ((a : A) (s₁ : V) → Same laws.look s s₁ → Counts (f a s₁))
      → Counts (and_then r f)
  then_kept f h k =
      Ensures-bind f (Ensures-weaken h (λ _ _ g. g) (λ _ _ g. Grown-Same laws.look g)) k

  Ensured-from :
      (t : TableId) (k : Bytes) (row : Row) (s₁ s₂ : V)
      → Same laws.look s s₁
      → Ensured laws.look t k row s₁ s₂
      → Ensured laws.look t k row s s₂
  Ensured-from t k row s₁ s₂ h g t' k' =
      g t' k'
      ∙ ap (λ o. if (t == t') && same k k' then some (row_or o row) else laws.look s₁ t' k') (h t k)
      ∙ ap (λ o. if (t == t') && same k k' then some (row_or (laws.look s t k) row) else o)
          (h t' k')

  init_tables-Counts : (db : B) (s₁ : V) → Same laws.look s s₁ → Counts (init_tables vm ops db s₁)
  unfolding init_tables
  init_tables-Counts db s₁ h =
      then_kept _ (ensure_table-Keeps laws db count_tracker_table _ h) (λ _ s₂ h₂.
        then_kept _ (ensure_table-Keeps laws db files_table _ h₂) (λ _ s₃ h₃.
          then_kept _ (ensure_table-Keeps laws db music_table _ h₃) (λ _ s₄ h₄.
            Ensures-bind _
              (Ensures-map_err _ (laws.get_table_finds db count_tracker_table s₄)
                (λ _ _ g. Grown-Same laws.look (Same-trans laws.look g h₄)))
              (λ t s₅ (t_is, g). rw t_is (
                Ensures-bind _
                  (Ensures-weaken
                    (ensure_row-Ensured laws (laws.id_of count_tracker_table) files_table _ db s₅)
                    (λ _ s₆ f.
                      Ensured-from (laws.id_of count_tracker_table) files_table
                        (first_row files_table) s₅ s₆ (Same-trans laws.look g h₄) f)
                    (λ _ _ f.
                      Grown-Same laws.look (Same-trans laws.look f (Same-trans laws.look g h₄))))
                  (λ _ s₆ f.
                    Ensures-weaken
                      (ensure_row-Ensured laws (laws.id_of count_tracker_table) music_table _ db s₆)
                      (λ _ s₇ m.
                        Counted-join laws.look (laws.id_of count_tracker_table) s s₆ s₇ f m)
                      (λ _ s₇ m t k row there.
                        m t k
                        ∙ Ensured-Grown laws.look (laws.id_of count_tracker_table) files_table s
                            (first_row files_table) s₆ f t k row there)))))))

  then_drop_db :
      {A : Type 0} (db : B) {r : Out FManError V A}
      → Counts r
      → Counts (out_then_drop r (λ s'. ok tt (ops.drop_db db s')))
  then_drop_db db h =
      Ensures-then_drop _ h (λ _ s₁ g. returns (λ t k. laws.drop_keeps db s₁ t k ∙ g t k))
        (λ _ s₁ g. returns (λ t k row there. laws.drop_keeps db s₁ t k ∙ g t k row there))

  then_close :
      {A : Type 0} (d : RawDirectory) {r : Out FManError V A}
      → Counts r
      → Counts (out_then_drop r (ignore (vm.close_dir d)))
  then_close d h =
      Ensures-then_drop _ h
        (λ _ s₁ g.
          Ensures-attempt _ (laws.close_dir_keeps d s₁) (λ _ _ c. returns (λ t k. c t k ∙ g t k))
            (λ _ _ c. returns (λ t k. c t k ∙ g t k)))
        (λ _ s₁ g.
          Ensures-attempt _ (laws.close_dir_keeps d s₁)
            (λ _ _ c. returns (λ t k row there. c t k ∙ g t k row there))
            (λ _ _ c. returns (λ t k row there. c t k ∙ g t k row there)))

  init_root-Counts :
      (root : RawDirectory) (s₁ : V) → Same laws.look s s₁ → Counts (init_root vm ops root s₁)
  unfolding init_root
  init_root-Counts root s₁ h = then_close root (
      then_kept _ (ensure_dir-Keeps laws root db_dir h) (λ _ s₂ h₂.
        then_kept _ (ensure_dir-Keeps laws root files_dir h₂) (λ _ s₃ h₃.
          then_kept _ (ensure_dir-Keeps laws root music_dir h₃) (λ _ s₄ h₄.
            then_kept _ (then-Keeps laws sd_err h₄ (laws.open_dir_keeps root db_dir s₄))
              (λ raw s₅ h₅.
                then_kept _ (then-Keeps laws db_err h₅ (laws.init_keeps raw s₅))
                  (λ db s₆ h₆. then_drop_db db (init_tables-Counts db s₆ h₆)))))))

-- A start on embassy, on an active card, neither panics nor waits for ever. Where it succeeds, the
-- counters have a row for files and one for music: the one that was there, or else one that stands at
-- 1; no other row of any table has changed. Where it fails, every row that was there still is.
pub init_embassy-Counted :
    {D V B : Type 0} {vm : VolumeManager V} {ops : DatabaseOps V B} (laws : DatabaseLaws vm ops)
    (s : V) (vol : RawVolume)
    → Ensures {S = CardState D V}
        (λ _. OnCard vol (Counted laws.look (laws.id_of count_tracker_table) s))
        (λ _. OnCard vol (Grown laws.look s))
        (init_embassy vm ops (active s vol))
unfolding init_embassy with_vol_man init_volume root_dir
init_embassy-Counted {vm} {ops} laws s vol = Ensures-on_card vol (
    then_kept laws s _ (then-Keeps laws sd_err (λ t k. refl) (laws.open_root_keeps vol s))
      (λ root s₁ h. init_root-Counts laws s root s₁ h))
