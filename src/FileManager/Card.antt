-- ===== src/FileManager/Card.antt =====
-- `FileManagerState` of file_manager/src/lib.rs: mounting and ejecting the card.
pub mod Mounting
use esp32_music_server.Prelude.{List, [], ◌∷◌}
use esp32_music_server.Run.{Out, Act, ok, err, panic, hang, pure, ◌>>=◌, ◌>>◌}
use esp32_music_server.Sdmmc.{SdError, RawVolume, VolumeManager}
use esp32_music_server.FileManager.{CardState, no_card, active, processing, Device}

unfoldable pub new : {D V : Type 0} → D → CardState D V
new device = no_card device

pub data CardEvent : Type 0 where
  mount eject : CardEvent

module _ {D V : Type 0} (dev : Device D V) (vm : VolumeManager V) where
  -- The match on what `open_raw_volume` returned. A panic leaves what `mem::replace` put there.
  mounted : Out SdError V RawVolume → Out ⊥ (CardState D V) (Unit {0})
  mounted (ok vol s) = ok tt (active s vol)
  mounted (err _ s) = ok tt (no_card (dev.free s))
  mounted (panic _) = panic processing
  mounted (hang _) = hang processing

  -- `mem::replace` has put `Processing` in the place of any state; only `NoCard` goes on.
  unfoldable pub try_mount : Act ⊥ (CardState D V) (Unit {0})
  unfolding mounted
  try_mount (no_card device) = mounted (vm.open_raw_volume 0 (dev.new_manager device))
  try_mount (active _ _) = ok tt processing
  try_mount processing = ok tt processing

  unfoldable pub handle_ejection : Act ⊥ (CardState D V) (Unit {0})
  handle_ejection (no_card _) = ok tt processing
  handle_ejection (active s _) = ok tt (no_card (dev.free s))
  handle_ejection processing = ok tt processing

  -- `FileManager::new`: the state that it makes, unless the mount panics.
  unfoldable pub new_file_manager : D → Out ⊥ (CardState D V) (Unit {0})
  unfolding new try_mount
  new_file_manager device = try_mount (new device)

  unfoldable pub card_step : CardEvent → Act ⊥ (CardState D V) (Unit {0})
  unfolding try_mount handle_ejection
  card_step mount s = try_mount s
  card_step eject s = handle_ejection s

  unfoldable pub card_run : List CardEvent → Act ⊥ (CardState D V) (Unit {0})
  unfolding card_step
  card_run [] = pure tt
  card_run (e ∷ es) = card_step e >> card_run es
