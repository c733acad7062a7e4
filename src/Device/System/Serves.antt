-- ===== src/Device/System/Serves.antt =====
-- What the event handler does for a signal.
use esp32_music_server.Prelude.{ℕ, ◌≡◌, refl, Bool, true, false, ◌||◌, Option, none, some, arith}
use esp32_music_server.Run.{Out, Ensures, returns, fails, pure, and_then, map_state, out_attempt}
use esp32_music_server.Device.StaConfig.{WifiSsidPwd, Postcard, FlashStorage, load}
use esp32_music_server.Device.StaConfig.RoundTrip.{FlashLaws, PostcardLaws, save_ends}
use esp32_music_server.Device.Wifi.{Wifi, WifiStatus}
use esp32_music_server.Device.Events.{
  Event, connect, disconnect, software_reset, get_flash_data, get_status, write_config_to_flash,
  set_config, DeviceState, handle_event,
}
use esp32_music_server.Device.Routes.{SignalName, status_signal, flash_data_signal}
use esp32_music_server.Device.System.{value}

abbrev pub has : {A : Type 0} → Option A → Bool
has none = false
has (some a) = true

-- Does the event ask for the signal?
abbrev pub asks : SignalName → Event → Bool
asks status_signal get_status = true
asks flash_data_signal get_flash_data = true
asks g e = false

abbrev pub is_reset : Event → Bool
is_reset software_reset = true
is_reset e = false

-- A signal that has a value, or that the event asks for, has one behind the event.
abbrev pub Serves : {C F : Type 0} → Event → DeviceState C F → DeviceState C F → Type 0
Serves e s d = (g : SignalName) → has (value g s) || asks g e ≡ true → has (value g d) ≡ true

-- What the code relies on: the calls of the controller end, with or without an error.
pub record WifiLaws {C : Type 0} (wifi : Wifi C) : Type 0 where
  pub sets :
      (c : WifiSsidPwd) (s : C) → Ensures (λ _ _. Unit {0}) (λ _ _. Unit {0}) (wifi.set_config c s)
  pub connects : (s : C) → Ensures (λ _ _. Unit {0}) (λ _ _. Unit {0}) (wifi.connect_async s)
  pub disconnects : (s : C) → Ensures (λ _ _. Unit {0}) (λ _ _. Unit {0}) (wifi.disconnect_async s)

module _ {C F : Type 0} where
  kept :
      (e : Event) (s d : DeviceState C F)
      → asks status_signal e ≡ false
      → asks flash_data_signal e ≡ false
      → value status_signal d ≡ value status_signal s
      → value flash_data_signal d ≡ value flash_data_signal s
      → Serves e s d
  kept e s d no_status no_flash same same' status_signal h = rw same (ground (arith, h, no_status))
  kept e s d no_status no_flash same same' flash_data_signal h =
      rw same' (ground (arith, h, no_flash))

  -- The error of a call is dropped.
  after_wifi :
      {e : Event} {s : DeviceState C F} {r : Out ℕ C (Unit {0})}
      → asks status_signal e ≡ false
      → asks flash_data_signal e ≡ false
      → Ensures (λ _ _. Unit {0}) (λ _ _. Unit {0}) r
      → Ensures {E = ⊥}
          (λ _ d. Serves e s d)
          (λ _ _. ⊥)
          (and_then (out_attempt (map_state (λ c. record s { wifi = c }) r)) (λ _. pure tt))
  after_wifi no_status no_flash (returns h) = returns (kept _ _ _ no_status no_flash refl refl)
  after_wifi no_status no_flash (fails h) = returns (kept _ _ _ no_status no_flash refl refl)

  status_served :
      (v : WifiStatus) (s : DeviceState C F)
      → Serves get_status s (record s { status_signal = some v })
  status_served v s status_signal h = refl
  status_served v s flash_data_signal h = ground (arith, h)

  flash_served :
      (v : WifiSsidPwd) (f : F) (s : DeviceState C F)
      → Serves get_flash_data s (record s { flash = f; flash_data_signal = some v })
  flash_served v f s flash_data_signal h = refl
  flash_served v f s status_signal h = ground (arith, h)

module _ {C F : Type 0} {wifi : Wifi C} {flash : FlashStorage F} {postcard : Postcard}
    (calls_end : WifiLaws wifi) (flash_laws : FlashLaws flash) (codec : PostcardLaws postcard) where
  -- Where the calls of the controller end, and the laws of the flash and of postcard hold, an event
  -- that does not restart the device ends, and every signal that had a value, or that the event asks
  -- for, has a value behind it.
  pub handle_event-Serves :
      (e : Event) (s : DeviceState C F)
      → is_reset e ≡ false
      → Ensures {E = ⊥} (λ _ d. Serves e s d) (λ _ _. ⊥) (handle_event wifi flash postcard e s)
  unfolding handle_event load
  handle_event-Serves (set_config c) s h = after_wifi refl refl (calls_end.sets c s.wifi)
  handle_event-Serves connect s h = after_wifi refl refl (calls_end.connects s.wifi)
  handle_event-Serves disconnect s h = after_wifi refl refl (calls_end.disconnects s.wifi)
  handle_event-Serves software_reset s h = absurd (ground (arith, h))
  handle_event-Serves get_status s h = returns (status_served _ s)
  handle_event-Serves get_flash_data s h =
      rw (flash_laws.reads s.flash) (returns (flash_served _ s.flash s))
  handle_event-Serves (write_config_to_flash c) s h =
      let (f, saved) = save_ends flash_laws codec c s.flash in
      rw saved (returns (kept _ _ _ refl refl refl refl))
