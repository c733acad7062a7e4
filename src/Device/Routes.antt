-- ===== src/Device/Routes.antt =====
-- actual/src/router.rs: what a handler of a route does, as a list of the calls that it makes on the
-- event channel and on the signals.
use esp32_music_server.Prelude.{List, [], ◌∷◌}
use esp32_music_server.Device.StaConfig.{WifiSsidPwd}
use esp32_music_server.Device.Events.{
  Event, connect, disconnect, software_reset, get_status, write_config_to_flash,
}

-- `STATUS_SIGNAL` and `FLASH_DATA_SIGNAL`.
pub data SignalName : Type 0 where
  status_signal flash_data_signal : SignalName

-- `EVENT_CHAN.send(e).await`, and `reset` and `wait` of a signal.
pub data Op : Type 0 where
  send : Event → Op
  reset wait : SignalName → Op

-- The requests that `router` routes to a handler of this file.
pub data Request : Type 0 where
  home config status get_flash_data print_alloc : Request
  set_config write_to_flash : WifiSsidPwd → Request

abbrev pub set_config_handler : WifiSsidPwd → List Op
set_config_handler data' = send (Event.set_config data') ∷ send connect ∷ []

abbrev pub write_to_flash_handler : WifiSsidPwd → List Op
write_to_flash_handler data' = send (write_config_to_flash data') ∷ []

abbrev pub status_handler : List Op
status_handler = reset status_signal ∷ send get_status ∷ wait status_signal ∷ []

abbrev pub get_flash_data_handler : List Op
get_flash_data_handler =
    reset flash_data_signal ∷ send Event.get_flash_data ∷ wait flash_data_signal ∷ []

abbrev pub print_alloc_handler : List Op
print_alloc_handler = reset status_signal ∷ send get_status ∷ wait status_signal ∷ []

-- The pages are constants.
abbrev pub home_handler : List Op
home_handler = []

abbrev pub config_handler : List Op
config_handler = []

unfoldable pub handler : Request → List Op
handler home = home_handler
handler config = config_handler
handler (set_config data') = set_config_handler data'
handler (write_to_flash data') = write_to_flash_handler data'
handler status = status_handler
handler get_flash_data = get_flash_data_handler
handler print_alloc = print_alloc_handler

-- The handlers whose routes are commented out.
abbrev pub connect_handler : List Op
connect_handler = send connect ∷ []

abbrev pub disconnect_handler : List Op
disconnect_handler = send disconnect ∷ []

abbrev pub software_reset_handler : List Op
software_reset_handler = send software_reset ∷ []
