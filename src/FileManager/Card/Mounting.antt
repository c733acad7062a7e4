-- ===== src/FileManager/Card/Mounting.antt =====
-- The state machine of the card: what mounting and ejecting do to each state.
use esp32_music_server.Prelude.{◌≡◌, refl, ap, Bool, true, false, not, ◌||◌, List, [], ◌∷◌, arith}
use esp32_music_server.Run.{Act, Out, ok, err, panic, hang, Ensures, returns, fails}
use esp32_music_server.Sdmmc.{SdError, RawDirectory, RawVolume, VolumeManager}
use esp32_music_server.FileManager.{
  CardState, no_card, active, processing, Device, FManError, card_not_active, is_card_active,
  with_root_dir_async,
}
use esp32_music_server.FileManager.Card.{
  CardEvent, mount, eject, new, try_mount, new_file_manager, mounted, card_step, card_run,
}

unfoldable pub is_processing : {D V : Type 0} → CardState D V → Bool
is_processing (no_card _) = false
is_processing (active _ _) = false
is_processing processing = true

-- Is the event one that its state cannot take: a mount of a card that is mounted, an ejection
-- without one?
unfoldable pub misuses : {D V : Type 0} → CardEvent → CardState D V → Bool
unfolding is_card_active
misuses mount s = is_card_active s
misuses eject s = not (is_card_active s)

module _ {D V : Type 0} (dev : Device D V) (vm : VolumeManager V) where
  -- `Processing` is never left: whatever is mounted or ejected afterwards, the card stays there.
  pub card_run-processing : (es : List CardEvent) → card_run dev vm es processing ≡ ok tt processing
  unfolding card_run
  card_run-processing [] = refl
  card_run-processing (mount ∷ es) = card_run-processing es
  card_run-processing (eject ∷ es) = card_run-processing es

  -- Mounting a card that is active, or ejecting one that is not, loses the card for good: after
  -- any further events `with_root_dir_async` refuses every action, and changes nothing.
  pub misuse_loses_card :
      {A : Type 0} (e : CardEvent) (es : List CardEvent) (f : RawDirectory → Act FManError V A)
      (s : CardState D V)
      → misuses e s ≡ true
      → (c : CardState D V) × (card_run dev vm (e ∷ es) s ≡ ok tt c)
        × (with_root_dir_async vm f c ≡ err card_not_active processing)
  unfolding card_run misuses with_root_dir_async
  misuse_loses_card mount es f (no_card d) h = absurd (ground (h, arith))
  misuse_loses_card mount es f (active s vol) h = (processing, card_run-processing es, refl)
  misuse_loses_card mount es f processing h = absurd (ground (h, arith))
  misuse_loses_card eject es f (no_card d) h = (processing, card_run-processing es, refl)
  misuse_loses_card eject es f (active s vol) h = absurd (ground (h, arith))
  misuse_loses_card eject es f processing h = (processing, card_run-processing es, refl)

  -- What holds of the state that a run returns with.
  abbrev where_it_ends : {A : Type 0} → (CardState D V → Bool) → Out ⊥ (CardState D V) A → Bool
  where_it_ends p (ok _ s) = p s
  where_it_ends p (err _ s) = false
  where_it_ends p (panic _) = false
  where_it_ends p (hang _) = false

  -- Is one of the events such a one, when it comes?
  unfoldable pub misused : List CardEvent → CardState D V → Bool
  unfolding card_step misuses
  misused [] s = false
  misused (e ∷ es) s = misuses e s || where_it_ends (misused es) (card_step dev vm e s)

  -- A mount of an absent card returns with a card that is present or absent.
  mounted-eq :
      {r : Out SdError V RawVolume}
      → Ensures (λ _ _. Unit {0}) (λ _ _. Unit {0}) r
      → (c : CardState D V) × (mounted dev vm r ≡ ok tt c) × (is_processing c ≡ false)
  unfolding mounted is_processing
  mounted-eq (returns {a = vol} {s} _) = (active s vol, refl, refl)
  mounted-eq (fails {s} _) = (no_card (dev.free s), refl, refl)

  -- No mount panics or waits for ever.
  abbrev pub MountsEnd : Type 0
  MountsEnd =
      (d : D)
      → Ensures (λ _ _. Unit {0}) (λ _ _. Unit {0}) (vm.open_raw_volume 0 (dev.new_manager d))

  pub new_file_manager-ends :
      MountsEnd → (device : D) → (c : CardState D V) × (new_file_manager dev vm device ≡ ok tt c)
  unfolding new_file_manager new try_mount mounted
  new_file_manager-ends opens device = let (c, made, _) = mounted-eq (opens device) in (c, made)

  -- What is there behind the first mount.
  pub new_file_manager-refused :
      (device : D) (e : SdError) (s : V)
      → vm.open_raw_volume 0 (dev.new_manager device) ≡ err e s
      → new_file_manager dev vm device ≡ ok tt (no_card (dev.free s))
  unfolding new_file_manager new try_mount mounted
  new_file_manager-refused device e s h = ap (mounted dev vm) h

  pub new_file_manager-mounts :
      (device : D) (vol : RawVolume) (s : V)
      → vm.open_raw_volume 0 (dev.new_manager device) ≡ ok vol s
      → new_file_manager dev vm device ≡ ok tt (active s vol)
  unfolding new_file_manager new try_mount mounted
  new_file_manager-mounts device vol s h = ap (mounted dev vm) h

  -- From a card that is present or absent, a run of mounts and ejections returns, and the state
  -- `Processing` is reached exactly by a mount of a card that is mounted already or an ejection of
  -- one that is not, if opening the volume does not panic.
  pub lost_iff_misused :
      MountsEnd
      → (es : List CardEvent) (s : CardState D V) → is_processing s ≡ false
      → (c : CardState D V) × (card_run dev vm es s ≡ ok tt c) × (is_processing c ≡ misused es s)
  unfolding card_run misused is_processing
  lost_iff_misused opens [] s h = (s, refl, h)
  lost_iff_misused opens (mount ∷ es) (no_card d) h =
      let (c, made, there) = mounted-eq (opens d) in rw made (lost_iff_misused opens es c there)
  lost_iff_misused opens (mount ∷ es) (active s vol) h = (processing, card_run-processing es, refl)
  lost_iff_misused opens (mount ∷ es) processing h = absurd (ground (h, arith))
  lost_iff_misused opens (eject ∷ es) (no_card d) h = (processing, card_run-processing es, refl)
  lost_iff_misused opens (eject ∷ es) (active s vol) h =
      lost_iff_misused opens es (no_card (dev.free s)) refl
  lost_iff_misused opens (eject ∷ es) processing h = absurd (ground (h, arith))
