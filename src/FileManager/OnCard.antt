-- ===== src/FileManager/OnCard.antt =====
-- Statements about runs on a card that is active.
use esp32_music_server.Prelude.{◌≡◌, refl, ◌∷◌}
use esp32_music_server.Run.{Out, Ensures, returns, fails, Ensures-bind, Ensures-map_err, Act}
use esp32_music_server.Sdmmc.{SdError, RawDirectory, RawVolume, VolumeManager}
use esp32_music_server.Sdmmc.Handles.{Opens, HandleLaws}
use esp32_music_server.Sdmmc.Rules.{Opens-refl, rule_open_root}
use esp32_music_server.FileManager.{
  FManError, sd_err, CardState, no_card, active, processing, on_card, with_root_dir,
  with_root_dir_async,
}

-- A predicate on the volume manager of a card that is active on the given volume.
abbrev pub OnCard : {D V : Type 0} → RawVolume → (V → Type 0) → CardState D V → Type 0
OnCard vol P (no_card _) = ⊥
OnCard vol P (active s v) = P s × (v ≡ vol)
OnCard vol P processing = ⊥

pub Ensures-on_card :
    {D V A : Type 0} {P : A → V → Type 0} {Q : FManError → V → Type 0} (vol : RawVolume)
    {r : Out FManError V A}
    → Ensures P Q r
    → Ensures {S = CardState D V} (λ a. OnCard vol (P a)) (λ e. OnCard vol (Q e)) (on_card vol r)
Ensures-on_card vol (returns h) = returns (h, refl)
Ensures-on_card vol (fails h) = fails (h, refl)

-- An action on the root directory starts with the root as the latest handle; where the root cannot
-- be opened, nothing has changed.
module _ {D V A : Type 0} {P : A → V → Type 0} {Q : FManError → V → Type 0} {vm : VolumeManager V}
    (laws : HandleLaws vm) (f : RawDirectory → Act FManError V A) (s : V) (vol : RawVolume)
    (unopened : (e : SdError) (s' : V)
      → Opens laws.tables s' (laws.tables.dirs s) (laws.tables.files s)
      → Q (sd_err e) s')
    (opened : (root : RawDirectory) (s' : V)
      → Opens laws.tables s' (root ∷ laws.tables.dirs s) (laws.tables.files s)
      → Ensures P Q (f root s')) where
  pub Ensures-with_root_dir :
      Ensures {S = CardState D V}
        (λ a. OnCard vol (P a))
        (λ e. OnCard vol (Q e))
        (with_root_dir vm f (active s vol))
  unfolding with_root_dir
  Ensures-with_root_dir = Ensures-on_card vol (
      Ensures-bind f
        (Ensures-map_err sd_err (rule_open_root laws (Opens-refl s) vol)
          (λ _ s' g. unopened _ s' g))
        (λ d s' (h, fresh). opened d s' h))

  pub Ensures-with_root_dir_async :
      Ensures {S = CardState D V}
        (λ a. OnCard vol (P a))
        (λ e. OnCard vol (Q e))
        (with_root_dir_async vm f (active s vol))
  unfolding with_root_dir_async
  Ensures-with_root_dir_async = Ensures-on_card vol (
      Ensures-bind f
        (Ensures-map_err sd_err (rule_open_root laws (Opens-refl s) vol)
          (λ _ s' g. unopened _ s' g))
        (λ d s' (h, fresh). opened d s' h))
