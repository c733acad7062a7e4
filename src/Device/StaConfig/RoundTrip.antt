-- ===== src/Device/StaConfig/RoundTrip.antt =====
-- What is loaded behind a save.
use esp32_music_server.Prelude.{
  ℕ, zero, suc, ◌+◌, ◌-◌, ◌≤◌, ◌≡◌, refl, ap, ◌∙◌, Option, none, some, ◌++◌, Bytes, length,
  length-append, Option-cases, inl, inr, arith,
}
use esp32_music_server.Run.{ok}
use esp32_music_server.Device.StaConfig.{
  WifiSsidPwd, Postcard, FlashStorage, flash_addr, config_len, zeros, filled, save, load,
}

-- What the code relies on: a text that fits is read back whatever stands behind it, and the flash
-- holds what was written to an erased sector.
pub record PostcardLaws (postcard : Postcard) : Type 0 where
  pub slice_fits :
      (c : WifiSsidPwd) (n : ℕ) (bs : Bytes) → postcard.to_slice c n ≡ some bs → length bs ≤ n
  pub reads_back :
      (c : WifiSsidPwd) (n : ℕ) (bs rest : Bytes)
      → postcard.to_slice c n ≡ some bs
      → postcard.from_bytes (bs ++ rest) ≡ some c

pub record FlashLaws {F : Type 0} (flash : FlashStorage F) : Type 0 where
  pub config : F → Bytes
  pub writes :
      (bs : Bytes) (s : F)
      → length bs ≡ config_len
      → (s₁ : F) × (s₂ : F) × (flash.erase flash_addr (flash_addr + 4096) s ≡ ok tt s₁)
        × (flash.write flash_addr bs s₁ ≡ ok tt s₂)
        × (config s₂ ≡ bs)
  pub reads : (s : F) → flash.read flash_addr config_len s ≡ ok (config s) s

length-zeros : (n : ℕ) → length (zeros n) ≡ n
length-zeros zero = refl
length-zeros (suc n) = omega (arith, length-zeros n)

length-filled : (bs : Bytes) → length bs ≤ config_len → length (filled bs) ≡ config_len
length-filled bs h = omega (
  arith,
  length-append bs (zeros (config_len - length bs)),
  length-zeros (config_len - length bs),
)

-- A save neither panics nor fails.
pub save_ends :
    {F : Type 0} {flash : FlashStorage F} {postcard : Postcard} (laws : FlashLaws flash)
    (codec : PostcardLaws postcard) (c : WifiSsidPwd) (f : F)
    → (f' : F) × (save flash postcard c f ≡ ok tt f')
unfolding save
save_ends {flash} {postcard} laws codec c f = elim (Option-cases (postcard.to_slice c config_len)) [
  | inl long ↦ (f, rw long refl)
  | inr (bs, fits) ↦
      let (f₁, f₂, erased, written, holds) =
        laws.writes (filled bs) f (length-filled bs (codec.slice_fits c config_len bs fits)) in
      (f₂, rw fits (rw erased (rw written refl)))
]

abbrev pub loaded_after :
    {A : Type 0} → Option A → Option WifiSsidPwd → WifiSsidPwd → Option WifiSsidPwd
loaded_after none old c = old
loaded_after (some bs) old c = some c

-- The flash behind a save: the same where the text does not fit, or else with the text, filled up
-- with zeros, in the place of the configuration.
abbrev pub Saved :
    {F : Type 0} {flash : FlashStorage F} → FlashLaws flash → F → Option Bytes → F → Type 0
Saved laws s none s' = s' ≡ s
Saved laws s (some bs) s' = laws.config s' ≡ filled bs

pub load-save :
    {F : Type 0} {flash : FlashStorage F} {postcard : Postcard} (laws : FlashLaws flash)
    (codec : PostcardLaws postcard) (c : WifiSsidPwd) (s : F)
    → (s' : F) × (save flash postcard c s ≡ ok tt s')
      × (load flash postcard s'
          ≡ ok
              (loaded_after
                (postcard.to_slice c config_len)
                (postcard.from_bytes (laws.config s))
                c)
              s')
      × Saved laws s (postcard.to_slice c config_len) s'
unfolding save load
load-save {flash} {postcard} laws codec c s = elim (Option-cases (postcard.to_slice c config_len)) [
  | inl long ↦ (s, rw long refl, rw long (rw (laws.reads s) refl), rw long refl)
  | inr (bs, fits) ↦
      let (s₁, s₂, erased, written, holds) =
        laws.writes (filled bs) s (length-filled bs (codec.slice_fits c config_len bs fits)) in
      (
        s₂,
        rw fits (rw erased (rw written refl)),
        rw fits (
            rw (laws.reads s₂) (
              ap (λ o. ok o s₂)
                (ap postcard.from_bytes holds ∙ codec.reads_back c config_len bs _ fits))),
        rw fits holds,
      )
]
