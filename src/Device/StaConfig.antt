-- ===== src/Device/StaConfig.antt =====
-- actual/src/sta_config.rs and `WifiSsidPwd` of actual/src/types.rs: the wifi's name and password in
-- the flash.
pub mod RoundTrip
use esp32_music_server.Prelude.{
  ℕ, zero, suc, ◌+◌, ◌-◌, Option, none, some, List, [], ◌∷◌, ◌++◌, Bytes, length,
}
use esp32_music_server.Run.{Act, pure, unwrap, ◌>>=◌, ◌>>◌}

pub record WifiSsidPwd : Type 0 where
  pub ssid : Bytes
  pub pwd : Bytes

-- The interface of postcard, which is not part of the repository. `to_slice` gives the front of the
-- buffer that it has written, and fails where the buffer is too short.
pub record Postcard : Type 0 where
  pub to_slice : WifiSsidPwd → (buf_len : ℕ) → Option Bytes
  pub from_bytes : Bytes → Option WifiSsidPwd

-- The interface of esp_storage's `FlashStorage`, whose errors are numbers here.
pub record FlashStorage (F : Type 0) : Type 0 where
  pub erase : ℕ → ℕ → Act ℕ F (Unit {0})
  pub write : ℕ → Bytes → Act ℕ F (Unit {0})
  pub read : (address len : ℕ) → Act ℕ F Bytes

abbrev pub flash_addr : ℕ
flash_addr = 3145728

abbrev pub config_len : ℕ
config_len = 256

abbrev pub zeros : ℕ → Bytes
zeros zero = []
zeros (suc n) = 0 ∷ zeros n

-- The buffer, of zeros at first, with the text in its front.
abbrev pub filled : Bytes → Bytes
filled serialized = serialized ++ zeros (config_len - length serialized)

module _ {F : Type 0} (flash : FlashStorage F) (postcard : Postcard) where
  abbrev pub store : Option Bytes → Act ⊥ F (Unit {0})
  store none = pure tt
  store (some serialized) =
      (λ s. unwrap (flash.erase flash_addr (flash_addr + 4096) s))
      >> (λ s. unwrap (flash.write flash_addr (filled serialized) s))

  unfoldable pub save : WifiSsidPwd → Act ⊥ F (Unit {0})
  save config = store (postcard.to_slice config config_len)

  unfoldable pub load : Act ⊥ F (Option WifiSsidPwd)
  load =
      (λ s. unwrap (flash.read flash_addr config_len s)) >>= λ buf. pure (postcard.from_bytes buf)
