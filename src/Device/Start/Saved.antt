-- ===== src/Device/Start/Saved.antt =====
-- What is written to the flash is what the next start connects with.
use esp32_music_server.Prelude.{◌≡◌, refl, ap, ◌∙◌, some, [], ◌∷◌, Bytes}
use esp32_music_server.Run.{ok}
use esp32_music_server.Device.StaConfig.{WifiSsidPwd, Postcard, FlashStorage, config_len, load}
use esp32_music_server.Device.StaConfig.RoundTrip.{FlashLaws, PostcardLaws, loaded_after, load-save}
use esp32_music_server.Device.Wifi.{Wifi}
use esp32_music_server.Device.Events.{connect, write_config_to_flash, DeviceState, handle_event}
use esp32_music_server.Device.Start.{start_config}

-- A name and a password that a request has written to the flash, and that fit the buffer, are those
-- of the station behind the next start, which asks to connect; neither the event nor the start
-- panics. The flash and postcard keep their laws.
pub start_config-written :
    {C F : Type 0} (wifi : Wifi C) {flash : FlashStorage F} {postcard : Postcard}
    (laws : FlashLaws flash) (codec : PostcardLaws postcard) (c default : WifiSsidPwd) (bs : Bytes)
    (s : DeviceState C F)
    → postcard.to_slice c config_len ≡ some bs
    → (f : F) × (f' : F) × (handle_event wifi flash postcard (write_config_to_flash c) s
        ≡ ok tt (record s { flash = f }))
      × (start_config flash postcard default f
          ≡ ok (record { sta_config = c; events = connect ∷ [] }) f')
unfolding handle_event start_config
start_config-written wifi {flash} {postcard} laws codec c default bs s fits =
    let (f, saved, loaded, _) = load-save laws codec c s.flash in
    let reloaded : load flash postcard f ≡ ok (some c) f =
      loaded ∙ ap (λ o. ok (loaded_after o (postcard.from_bytes (laws.config s.flash)) c) f) fits in
    (f, f, rw saved refl, rw reloaded refl)
