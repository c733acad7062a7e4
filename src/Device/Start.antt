-- ===== src/Device/Start.antt =====
-- The start of the wifi in actual/src/main.rs: the stored name and password, if there are any, go
-- into the configuration of the station, and the event handler is asked to connect.
pub mod Saved
use esp32_music_server.Prelude.{Option, none, some, List, [], ◌∷◌, ◌++◌}
use esp32_music_server.Run.{Act, pure, ◌>>=◌}
use esp32_music_server.Device.StaConfig.{WifiSsidPwd, Postcard, FlashStorage, load}
use esp32_music_server.Device.Events.{Event, connect}

-- `sta_config`, of which the name and the password are kept, and the event channel.
pub record Boot : Type 0 where
  pub sta_config : WifiSsidPwd
  pub events : List Event

-- `if let Some(data) = manager.load()`
abbrev pub configured : Boot → Option WifiSsidPwd → Boot
configured boot none = boot
configured boot (some data') = record { sta_config = data'; events = boot.events ++ connect ∷ [] }

-- `default` is `ClientConfig::default()`; the channel is new.
unfoldable pub start_config : {F : Type 0} → FlashStorage F → Postcard → WifiSsidPwd → Act ⊥ F Boot
unfolding load
start_config flash postcard default = load flash postcard >>= λ found.
    pure (configured (record { sta_config = default; events = [] }) found)
