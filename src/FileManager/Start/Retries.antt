-- ===== src/FileManager/Start/Retries.antt =====
-- What the loops come to when a round fails.
use mathlib.Core.Path.{subst}
use esp32_music_server.Prelude.{
  ℕ, zero, suc, ◌≡◌, refl, sym, ◌∙◌, Option, none, some, List, [], ◌∷◌, ==-refl,
}
use esp32_music_server.Run.{
  Act, Out, ok, err, hang, Ensures, returns, fails, map_state, and_then, out_attempt,
}
use esp32_music_server.Sdmmc.{SdError, RawVolume, VolumeManager}
use esp32_music_server.Database.{Row, DatabaseOps}
use esp32_music_server.Database.Tables.{DatabaseLaws}
use esp32_music_server.FileManager.{
  FManError, CardState, no_card, active, processing, Device, with_vol_man, count_tracker_table,
}
use esp32_music_server.FileManager.Card.Mounting.{
  MountsEnd, new_file_manager-ends, new_file_manager-refused, new_file_manager-mounts,
}
use esp32_music_server.FileManager.OnCard.{OnCard}
use esp32_music_server.FileManager.Init.{
  init_embassy, init_tokio, files_table, music_table, first_row,
}
use esp32_music_server.FileManager.Init.Rows.{row_or, Grown}
use esp32_music_server.FileManager.Init.Counters.{Counted, Counted-Grown, init_embassy-Counted}
use esp32_music_server.FileManager.Start.{
  OnceLock, unless_done, init_file_manager_embassy, init_file_system_embassy, start_embassy,
  init_file_system_tokio, start_loop, init_file_manager_tokio, start_tokio,
}

-- What the code relies on: the first value stays.
pub record OnceLaws {T : Type 0} (once : OnceLock T) : Type 0 where
  pub init_sets : (t : T) → once.init t none ≡ some t
  pub init_keeps : (t u : T) → once.init t (some u) ≡ some u

module _ {D V B : Type 0} (dev : Device D V) (vm : VolumeManager V) (ops : DatabaseOps V B) where
  embassy_rounds :
      (once : OnceLock (CardState D V))
      → OnceLaws once
      → MountsEnd dev vm
      → (devices : List D) (device : D)
      → start_embassy dev vm ops once devices (some (no_card device)) ≡ hang (some (no_card device))
  unfolding start_embassy init_file_system_embassy init_file_manager_embassy init_embassy
      with_vol_man
  embassy_rounds once laws opens [] device = refl
  embassy_rounds once laws opens (d ∷ devices) device =
      let (c, made) = new_file_manager-ends dev vm opens d in
      rw made
        (rw (laws.init_keeps c (no_card device)) (embassy_rounds once laws opens devices device))

  tokio_rounds :
      (rounds : ℕ) (device : D)
      → start_loop dev vm ops rounds (some (no_card device)) ≡ hang (some (no_card device))
  unfolding start_loop init_file_system_tokio init_tokio with_vol_man
  tokio_rounds zero device = refl
  tokio_rounds (suc rounds) device = tokio_rounds rounds device

  -- If no mount panics, a card that cannot be mounted when the file manager is made is never mounted:
  -- on embassy the loop goes on for ever, whatever devices its later rounds make, and on tokio too.
  -- The first value of the static stays.
  pub start-unmounted :
      {once : OnceLock (CardState D V)}
      → OnceLaws once
      → MountsEnd dev vm
      → (device : D) (e : SdError) (s : V) → vm.open_raw_volume 0 (dev.new_manager device) ≡ err e s
      → (devices : List D) (rounds : ℕ)
      → (start_embassy dev vm ops once (device ∷ devices) none ≡ hang (some (no_card (dev.free s))))
        × (start_tokio dev vm ops device rounds none ≡ hang (some (no_card (dev.free s))))
  unfolding start_embassy init_file_system_embassy init_file_manager_embassy init_embassy
      with_vol_man start_tokio init_file_manager_tokio
  start-unmounted {once} laws opens device e s h devices rounds =
      let unmounted = new_file_manager-refused dev vm device e s h in
      (
        rw unmounted (
            rw (laws.init_sets (no_card (dev.free s)))
              (embassy_rounds once laws opens devices (dev.free s))),
        rw unmounted (tokio_rounds rounds (dev.free s)),
      )

-- The loop still runs, or has ended: what holds of the card.
pub data Starts {D V : Type 0} (P Q : CardState D V → Type 0)
    : Out ⊥ (Option (CardState D V)) (Unit {0}) → Type 0 where
  started : {c : CardState D V} → P c → Starts P Q (ok tt (some c))
  still_tries : {c : CardState D V} → Q c → Starts P Q (hang (some c))

module _ {V B : Type 0} {vm : VolumeManager V} {ops : DatabaseOps V B} (laws : DatabaseLaws vm ops)
    (s : V) where
  -- Both tables have a counter, and every row that was there is there.
  pub record IsReady (s' : V) : Type 0 where
    pub files_counted :
        (row : Row) × (laws.look s' (laws.id_of count_tracker_table) files_table ≡ some row)
    pub music_counted :
        (row : Row) × (laws.look s' (laws.id_of count_tracker_table) music_table ≡ some row)
    pub grown : Grown laws.look s s'

  Grown-trans : (a b : V) → Grown laws.look s a → Grown laws.look a b → Grown laws.look s b
  Grown-trans a b g h t k row there = h t k row (g t k row there)

  Counted-IsReady :
      (a b : V)
      → Grown laws.look s a
      → Counted laws.look (laws.id_of count_tracker_table) a b
      → IsReady b
  Counted-IsReady a b g c = record {
    files_counted = (
      row_or (laws.look a (laws.id_of count_tracker_table) files_table) (first_row files_table),
      c (laws.id_of count_tracker_table) files_table
          ∙ rw (==-refl (laws.id_of count_tracker_table)) refl,
    );
    music_counted = (
      row_or (laws.look a (laws.id_of count_tracker_table) music_table) (first_row music_table),
      c (laws.id_of count_tracker_table) music_table
          ∙ rw (==-refl (laws.id_of count_tracker_table)) refl,
    );
    grown = Grown-trans a b g (Counted-Grown laws.look (laws.id_of count_tracker_table) a b c);
  }

  module _ {D : Type 0} (vol : RawVolume) where
    abbrev Tries : Out ⊥ (Option (CardState D V)) (Unit {0}) → Type 0
    Tries r = Starts (OnCard vol IsReady) (OnCard vol (Grown laws.look s)) r

    -- A round, and what goes on behind it.
    round :
        {a : V} {r : Out FManError (CardState D V) (Unit {0})}
        (again : Act ⊥ (Option (CardState D V)) (Unit {0}))
        → Grown laws.look s a
        → Ensures
            (λ _. OnCard vol (Counted laws.look (laws.id_of count_tracker_table) a))
            (λ _. OnCard vol (Grown laws.look a))
            r
        → ((c : CardState D V) → OnCard vol (Grown laws.look s) c → Tries (again (some c)))
        → Tries (and_then (out_attempt (map_state some r)) (unless_done again))
    round again g (returns {s = active b v} (c, e)) k = started (Counted-IsReady _ b g c, e)
    round again g (fails {s = active b v} (h, e)) k = k (active b v) (Grown-trans _ b g h, e)
    round again g (returns {s = no_card d} h) k = absurd h
    round again g (fails {s = no_card d} h) k = absurd h
    round again g (returns {s = processing} h) k = absurd h
    round again g (fails {s = processing} h) k = absurd h

    rounds_on :
        (dev : Device D V) (once : OnceLock (CardState D V))
        → OnceLaws once
        → MountsEnd dev vm
        → (devices : List D) (c : CardState D V) → OnCard vol (Grown laws.look s) c
        → Tries (start_embassy dev vm ops once devices (some c))
    unfolding start_embassy init_file_system_embassy init_file_manager_embassy init_embassy
        with_vol_man
    rounds_on dev once once_laws opens [] c h = still_tries h
    rounds_on dev once once_laws opens (d ∷ devices) (no_card _) h = absurd h
    rounds_on dev once once_laws opens (d ∷ devices) processing h = absurd h
    rounds_on dev once once_laws opens (d ∷ devices) (active a v) (g, e) =
        let (made_card, made) = new_file_manager-ends dev vm opens d in
        rw made (
          rw (once_laws.init_keeps made_card (active a v)) (
            round (start_embassy dev vm ops once devices) g
              (subst
                (λ w.
                  Ensures (λ _. OnCard vol (Counted laws.look (laws.id_of count_tracker_table) a))
                    (λ _. OnCard vol (Grown laws.look a))
                    (init_embassy {D = D} vm ops (active a w)))
                (sym e) (init_embassy-Counted laws a vol))
              (rounds_on dev once once_laws opens devices)))

-- A start on embassy whose first mount opens the volume never panics, if no later mount does, however
-- many of its rounds fail: it has ended, with a counter for both tables, or it still tries; and in
-- both cases every row that was there is there, and the card is active on its volume.
pub start-Starts :
    {D V B : Type 0} (dev : Device D V) {vm : VolumeManager V} {ops : DatabaseOps V B}
    {once : OnceLock (CardState D V)} (laws : DatabaseLaws vm ops)
    → OnceLaws once
    → MountsEnd dev vm
    → (device : D) (vol : RawVolume) (s : V)
    → vm.open_raw_volume 0 (dev.new_manager device) ≡ ok vol s
    → (devices : List D)
    → Starts
        (OnCard vol (IsReady laws s))
        (OnCard vol (Grown laws.look s))
        (start_embassy dev vm ops once (device ∷ devices) none)
unfolding start_embassy init_file_system_embassy init_file_manager_embassy init_embassy with_vol_man
start-Starts dev {vm} {ops} {once} laws once_laws opens device vol s h devices =
    rw (new_file_manager-mounts dev vm device vol s h) (
      rw (once_laws.init_sets (active s vol)) (
        round laws s vol (start_embassy dev vm ops once devices) (λ t k row there. there)
          (init_embassy-Counted laws s vol)
          (rounds_on laws s vol dev once once_laws opens devices)))
