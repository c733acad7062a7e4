-- ===== src/Tests/DeviceTests.antt =====
-- actual/src/sta_config.rs with a flash of one sector and a codec that writes lengths before texts.
use esp32_music_server.Prelude.{
  ℕ, ◌≤◌, ◌≡◌, refl, ap, ◌∙◌, leb, Option, none, some, [], ◌∷◌, ◌++◌, append_assoc, Bytes, codes,
  length, take, drop, take-append_left, if◌then◌else◌, arith,
}
use esp32_music_server.Run.{ok}
use esp32_music_server.Device.StaConfig.{WifiSsidPwd, Postcard, FlashStorage}
use esp32_music_server.Device.StaConfig.RoundTrip.{PostcardLaws, FlashLaws}

abbrev encode : WifiSsidPwd → Bytes
encode c = length c.ssid ∷ (c.ssid ++ (length c.pwd ∷ c.pwd))

abbrev second_text : Bytes → Bytes → Option WifiSsidPwd
second_text ssid [] = none
second_text ssid (m ∷ ys) = some (record { ssid = ssid; pwd = take m ys })

abbrev decode : Bytes → Option WifiSsidPwd
decode [] = none
decode (n ∷ xs) = second_text (take n xs) (drop n xs)

abbrev if_fits : Bytes → ℕ → Option Bytes
if_fits bs n = if leb (length bs) n then some bs else none

abbrev pub codec : Postcard
codec = record { to_slice = λ c n. if_fits (encode c) n; from_bytes = decode }

if_fits-eq :
    (bs : Bytes) (n : ℕ) (cs : Bytes) → if_fits bs n ≡ some cs → (cs ≡ bs) × (length bs ≤ n)
if_fits-eq bs n cs h = ground (arith, h)

drop-append : (xs ys : Bytes) → drop (length xs) (xs ++ ys) ≡ ys
drop-append [] ys = refl
drop-append (x ∷ xs) ys = drop-append xs ys

decode-encode : (c : WifiSsidPwd) (rest : Bytes) → decode (encode c ++ rest) ≡ some c
decode-encode c rest =
    ap (λ t. decode (length c.ssid ∷ t)) (append_assoc c.ssid (length c.pwd ∷ c.pwd) rest)
    ∙ ap (λ t. second_text t (drop (length c.ssid) (c.ssid ++ (length c.pwd ∷ (c.pwd ++ rest)))))
        (take-append_left (length c.ssid) c.ssid _ refl)
    ∙ ap (second_text c.ssid) (drop-append c.ssid (length c.pwd ∷ (c.pwd ++ rest)))
    ∙ ap (λ t. some (record { ssid = c.ssid; pwd = t }))
        (take-append_left (length c.pwd) c.pwd rest refl)

pub codec_laws : PostcardLaws codec
codec_laws = record {
  slice_fits = λ c n bs h.
      let (same_text, fits) = if_fits-eq (encode c) n bs h in
      omega (arith, ap length same_text, fits);
  reads_back = λ c n bs rest h.
      let (same_text, fits) = if_fits-eq (encode c) n bs h in
      ap (λ t. decode (t ++ rest)) same_text ∙ decode-encode c rest;
}

-- The sector's front.
abbrev pub flash : FlashStorage Bytes
flash = record {
  erase = λ from to s. ok tt s;
  write = λ address bs s. ok tt bs;
  read = λ address len s. ok s s;
}

abbrev pub flash_laws : FlashLaws flash
flash_laws = record {
  config = λ s. s;
  writes = λ bs s h. (s, bs, refl, refl, refl);
  reads = λ s. refl;
}

abbrev home : WifiSsidPwd
home = record { ssid = codes "home"; pwd = codes "1234" }
