-- ===== src/FileManager/Start/Second.antt =====
-- A start on tokio of a card that was started before.
use mathlib.Core.Path.{subst}
use esp32_music_server.Prelude.{
  ℕ, zero, suc, ◌≡◌, refl, sym, ◌∙◌, Option, none, some, List, Bytes, arith,
}
use esp32_music_server.Run.{
  Act, Out, ok, Ensures, returns, fails, Ensures-bind, Ensures-map_err, Ensures-attempt,
  Ensures-then_drop, Ensures-weaken, map_state, and_then, out_attempt, out_then_drop, ignore,
}
use esp32_music_server.Sdmmc.{SdError, RawDirectory, RawVolume, VolumeManager}
use esp32_music_server.Database.{Row, Column, DatabaseOps}
use esp32_music_server.Database.Tables.{Same, SameAfter, DatabaseLaws}
use esp32_music_server.FileManager.{
  FManError, sd_err, db_err, CardState, no_card, active, processing, Device, with_vol_man, root_dir,
  count_tracker_table, db_dir, files_dir, music_dir,
}
use esp32_music_server.FileManager.Card.Mounting.{new_file_manager-mounts}
use esp32_music_server.FileManager.OnCard.{OnCard, Ensures-on_card}
use esp32_music_server.FileManager.Init.{
  init_tokio, create_volume, create_tables, create_table, files_table,
}
use esp32_music_server.FileManager.Init.Keeps.{Keeps, then-Keeps, Same-trans, add_columns-Keeps}
use esp32_music_server.FileManager.Start.{
  unless_done, init_file_system_tokio, start_loop, init_file_manager_tokio, start_tokio,
}
use esp32_music_server.FileManager.Start.Retries.{Starts, still_tries}

twice : {row : Row} → some row ≡ none → ⊥
twice e = ground (arith, e)

module _ {V B : Type 0} {vm : VolumeManager V} {ops : DatabaseOps V B} (laws : DatabaseLaws vm ops)
    (s : V) where
  -- The run fails, with the tables as they were.
  abbrev Refuses : {A : Type 0} → Out FManError V A → Type 0
  Refuses r = Ensures (λ _ _. ⊥) (λ _. Same laws.look s) r

  drop_Refuses :
      {A : Type 0} (close : Act FManError V (Unit {0})) {r : Out FManError V A}
      → ((a : V) → Ensures (λ _. Same laws.look a) (λ _ _. ⊥) (close a))
      → Refuses r
      → Refuses (out_then_drop r close)
  drop_Refuses close keeps h =
      Ensures-then_drop close h (λ _ _ never. absurd never)
        (λ _ a g. Ensures-weaken (keeps a) (λ _ _ k. Same-trans laws.look k g) (λ _ _ k. k))

  close_keeps :
      (d : RawDirectory) (a : V)
      → Ensures {E = FManError} (λ _. Same laws.look a) (λ _ _. ⊥) (ignore (vm.close_dir d) a)
  close_keeps d a =
      Ensures-attempt _ (laws.close_dir_keeps d a) (λ _ _ g. returns g) (λ _ _ g. returns g)

  -- `let _ =` of a call that leaves the tables as they were.
  ignore-Keeps :
      {a : V} {r : Out SdError V (Unit {0})}
      → Same laws.look s a
      → SameAfter laws.look a r
      → Keeps laws {E = FManError} s (and_then (out_attempt r) (λ _ b. ok tt b))
  ignore-Keeps h call =
      Ensures-attempt _ call (λ _ _ g. returns (Same-trans laws.look g h))
        (λ _ _ g. returns (Same-trans laws.look g h))

  create_table-Keeps :
      (db : B) (name : Bytes) (columns : List Column) {a : V}
      → Same laws.look s a
      → Keeps laws s (create_table vm ops db name columns a)
  unfolding create_table
  create_table-Keeps db name columns {a} h =
      Ensures-bind _
        (add_columns-Keeps laws db columns (Same-trans laws.look (laws.begin_keeps db name a) h))
        (λ _ b g. then-Keeps laws db_err g (laws.create_table_keeps db b))

  module _ (row : Row)
      (there : laws.look s (laws.id_of count_tracker_table) files_table ≡ some row) where
    create_tables-Refuses :
        (db : B) (a : V) → Same laws.look s a → Refuses (create_tables vm ops db a)
    unfolding create_tables
    create_tables-Refuses db a h = Ensures-bind _ (create_table-Keeps db _ _ h) (λ _ b hb.
        Ensures-bind _ (create_table-Keeps db _ _ hb) (λ _ c hc.
          Ensures-bind _ (create_table-Keeps db _ _ hc) (λ _ d hd.
            Ensures-bind _
              (Ensures-map_err db_err (laws.get_table_finds db count_tracker_table d)
                (λ _ _ g. Same-trans laws.look g hd))
              (λ table e (table_is, g). rw table_is (
                Ensures-bind {P = λ _ _. ⊥} _
                  (Ensures-map_err db_err
                    (Ensures-weaken
                      (laws.insert_puts db (laws.id_of count_tracker_table) files_table _ e)
                      (λ _ _ (absent, _). twice (
                        sym (
                          Same-trans laws.look g hd (laws.id_of count_tracker_table) files_table
                          ∙ there)
                        ∙ absent))
                      (λ _ _ k. k))
                    (λ _ _ (_, k). Same-trans laws.look k (Same-trans laws.look g hd)))
                  (λ _ _ never. absurd never))))))

    create_volume-Refuses : (vol : RawVolume) → Refuses (create_volume vm ops vol s)
    unfolding create_volume root_dir
    create_volume-Refuses vol =
        Ensures-bind _ (then-Keeps laws sd_err (λ t k. refl) (laws.open_root_keeps vol s))
          (λ root a ha. drop_Refuses _ (close_keeps root) (
            Ensures-bind _ (ignore-Keeps ha (laws.make_dir_keeps root db_dir a)) (λ _ b hb.
              Ensures-bind _ (ignore-Keeps hb (laws.make_dir_keeps root files_dir b)) (λ _ c hc.
                Ensures-bind _ (ignore-Keeps hc (laws.make_dir_keeps root music_dir c)) (λ _ d hd.
                  Ensures-bind _ (then-Keeps laws sd_err hd (laws.open_dir_keeps root db_dir d))
                    (λ raw e he.
                      Ensures-bind _ (then-Keeps laws db_err he (laws.init_keeps raw e)) (λ db f hf.
                        drop_Refuses _ (λ x. returns (laws.drop_keeps db x))
                          (create_tables-Refuses db f hf))))))))

module _ {D V B : Type 0} {vm : VolumeManager V} {ops : DatabaseOps V B}
    (laws : DatabaseLaws vm ops) (vol : RawVolume) where
  -- A round that fails, and what goes on behind it.
  next_round :
      {a : V} {r : Out FManError (CardState D V) (Unit {0})} {P Q : CardState D V → Type 0}
      (again : Act ⊥ (Option (CardState D V)) (Unit {0}))
      → Ensures (λ _. OnCard vol (λ _. ⊥)) (λ _. OnCard vol (Same laws.look a)) r
      → ((b : V) → Same laws.look a b → Starts P Q (again (some (active b vol))))
      → Starts P Q (and_then (out_attempt (map_state some r)) (unless_done again))
  next_round again (returns {s = active b v} (never, e)) k = absurd never
  next_round again (returns {s = no_card d} h) k = absurd h
  next_round again (returns {s = processing} h) k = absurd h
  next_round {P} {Q} again (fails {s = active b v} (h, e)) k =
      subst (λ w. Starts P Q (again (some (active b w)))) (sym e) (k b h)
  next_round again (fails {s = no_card d} h) k = absurd h
  next_round again (fails {s = processing} h) k = absurd h

  rounds_refused :
      (dev : Device D V) (row : Row) (rounds : ℕ) (s a : V)
      → Same laws.look s a
      → laws.look s (laws.id_of count_tracker_table) files_table ≡ some row
      → Starts
          (λ _. ⊥)
          (OnCard vol (Same laws.look s))
          (start_loop dev vm ops rounds (some (active a vol)))
  unfolding start_loop init_file_system_tokio init_tokio with_vol_man
  rounds_refused dev row zero s a h there = still_tries (h, refl)
  rounds_refused dev row (suc rounds) s a h there =
      next_round {a = a} (start_loop dev vm ops rounds)
        (Ensures-on_card vol (
          create_volume-Refuses laws a row (h (laws.id_of count_tracker_table) files_table ∙ there)
            vol))
        (λ b g. rounds_refused dev row rounds s b (Same-trans laws.look g h) there)

-- A start on tokio of a card that has a counter for the files, as behind an earlier start, never
-- ends, for all its rounds; it never panics, no row of any table changes, and the card stays active
-- on its volume.
pub start_tokio-again :
    {D V B : Type 0} (dev : Device D V) {vm : VolumeManager V} {ops : DatabaseOps V B}
    (laws : DatabaseLaws vm ops) (device : D) (vol : RawVolume) (s : V) (row : Row) (rounds : ℕ)
    → vm.open_raw_volume 0 (dev.new_manager device) ≡ ok vol s
    → laws.look s (laws.id_of count_tracker_table) files_table ≡ some row
    → Starts (λ _. ⊥) (OnCard vol (Same laws.look s)) (start_tokio dev vm ops device rounds none)
unfolding start_tokio init_file_manager_tokio
start_tokio-again dev {vm} laws device vol s row rounds opens there =
    rw (new_file_manager-mounts dev vm device vol s opens)
      (rounds_refused laws vol dev row rounds s s (λ t k. refl) there)
