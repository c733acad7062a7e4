-- ===== src/Device/Events.antt =====
-- actual/src/event_handler.rs: the events and what the handler's task does with each. Messages that
-- are printed have no state.
use esp32_music_server.Prelude.{Option, none, some, []}
use esp32_music_server.Run.{Act, ok, hang, ignore, map_state, ◌>>=◌}
use esp32_music_server.Device.StaConfig.{WifiSsidPwd, Postcard, FlashStorage, save, load}
use esp32_music_server.Device.Wifi.{Wifi, WifiStatus, get_wifi_status}

-- The two events that carry a signal always carry the one static of its type: `STATUS_SIGNAL` and
-- `FLASH_DATA_SIGNAL`.
pub data Event : Type 0 where
  connect disconnect software_reset get_flash_data get_status : Event
  write_config_to_flash set_config : WifiSsidPwd → Event

-- What the handler works on; a signal is a slot for the latest value.
pub record DeviceState (C F : Type 0) : Type 0 where
  pub wifi : C
  pub flash : F
  pub status_signal : Option WifiStatus
  pub flash_data_signal : Option WifiSsidPwd

abbrev pub no_details : WifiSsidPwd
no_details = record { ssid = []; pwd = [] }

-- `if let Some(details) = manager.load()`, and the value behind it.
abbrev pub or_empty : Option WifiSsidPwd → WifiSsidPwd
or_empty none = no_details
or_empty (some details) = details

module _ {C F : Type 0} (wifi : Wifi C) (flash : FlashStorage F) (postcard : Postcard) where
  abbrev on_wifi : {E A : Type 0} → Act E C A → Act E (DeviceState C F) A
  on_wifi m s = map_state (λ c. record s { wifi = c }) (m s.wifi)

  abbrev on_flash : {E A : Type 0} → Act E F A → Act E (DeviceState C F) A
  on_flash m s = map_state (λ f. record s { flash = f }) (m s.flash)

  -- `sig.signal(value)`
  abbrev signal_status : Act ⊥ (DeviceState C F) (Unit {0})
  signal_status s = ok tt (record s { status_signal = some (get_wifi_status wifi s.wifi) })

  abbrev signal_flash_data : WifiSsidPwd → Act ⊥ (DeviceState C F) (Unit {0})
  signal_flash_data details s = ok tt (record s { flash_data_signal = some details })

  -- The match of the loop; errors of the controller are printed. `software_reset` does not return.
  unfoldable pub handle_event : Event → Act ⊥ (DeviceState C F) (Unit {0})
  handle_event (set_config c) = ignore (on_wifi (wifi.set_config c))
  handle_event (write_config_to_flash c) = on_flash (save flash postcard c)
  handle_event get_flash_data =
      on_flash (load flash postcard) >>= λ found. signal_flash_data (or_empty found)
  handle_event software_reset = hang
  handle_event connect = ignore (on_wifi wifi.connect_async)
  handle_event disconnect = ignore (on_wifi wifi.disconnect_async)
  handle_event get_status = signal_status
