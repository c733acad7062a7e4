-- ===== src/Device/Wifi.antt =====
-- `get_wifi_status` of actual/src/event_handler.rs and `WifiStatus` of actual/src/types.rs.
use esp32_music_server.Prelude.{
  ℕ, Bool, false, Option, none, some, Bytes, length, ◌==◌, if◌then◌else◌,
}
use esp32_music_server.Run.{Act, Result, good, bad}
use esp32_music_server.Device.StaConfig.{WifiSsidPwd, zeros}

-- An IPv4 address.
abbrev pub Ipv4Address : Type 0
Ipv4Address = ℕ

pub record WifiStatus : Type 0 where
  pub is_connected : Bool
  pub is_config_up : Bool
  pub ip_address : Option Ipv4Address
  pub gateway : Option Ipv4Address
  pub mac_address : Bytes

-- `StaticConfigV4`, the parts that are read.
pub record ConfigV4 : Type 0 where
  pub address : Ipv4Address
  pub gateway : Option Ipv4Address

-- The interfaces of esp_radio's controller and embassy_net's stack, which are not part of the
-- repository; an error is a number.
pub record Wifi (C : Type 0) : Type 0 where
  pub set_config : WifiSsidPwd → Act ℕ C (Unit {0})
  pub connect_async : Act ℕ C (Unit {0})
  pub disconnect_async : Act ℕ C (Unit {0})
  pub is_connected : C → Result ℕ Bool
  pub is_config_up : C → Bool
  pub config_v4 : C → Option ConfigV4
  pub hardware_address : C → Bytes

abbrev pub or_false : Result ℕ Bool → Bool
or_false (good b) = b
or_false (bad e) = false

abbrev pub address_of : Option ConfigV4 → Option Ipv4Address
address_of none = none
address_of (some c) = some c.address

abbrev pub gateway_of : Option ConfigV4 → Option Ipv4Address
gateway_of none = none
gateway_of (some c) = c.gateway

-- `try_into().unwrap_or([0; 6])`
abbrev pub six_bytes : Bytes → Bytes
six_bytes bs = if length bs == 6 then bs else zeros 6

unfoldable pub get_wifi_status : {C : Type 0} → Wifi C → C → WifiStatus
get_wifi_status wifi c = record {
  is_connected = or_false (wifi.is_connected c);
  is_config_up = wifi.is_config_up c;
  ip_address = address_of (wifi.config_v4 c);
  gateway = gateway_of (wifi.config_v4 c);
  mac_address = six_bytes (wifi.hardware_address c);
}
