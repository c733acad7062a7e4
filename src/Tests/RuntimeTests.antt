-- ===== src/Tests/RuntimeTests.antt =====
-- Signals of file_manager/src/runtime at concrete calls.
use esp32_music_server.Prelude.{
  ℕ, ◌≡◌, refl, ap, Bool, true, false, Option, none, some, List, [], ◌∷◌, arith,
}
use esp32_music_server.Run.{ok, panic, hang, Act}
use esp32_music_server.Runtime.Seen.{seen}
use esp32_music_server.Runtime.Signal.{
  Notify, EmbassySignal, tokio_signal, embassy_signal, SignalEvent, signalled, waited, was_reset,
  signal_run,
}
use esp32_music_server.Runtime.Signal.Slot.{
  NotifyLaws, SignalLaws, is_some, slot, tokio_signal-slot, tokio_reset_panics, embassy_signal-slot,
}

abbrev take_permit : Act ⊥ Bool (Unit {0})
take_permit true = ok tt false
take_permit false = hang false

abbrev permits : Notify Bool
permits = record { notified = take_permit; notify_one = λ p. true }

takes : (p : Bool) → p ≡ true → (q : Bool) × (take_permit p ≡ ok tt q) × (q ≡ false)
takes true h = (false, refl, refl)
takes false h = absurd (ground (h, arith))

waits : (p : Bool) → p ≡ false → (q : Bool) × (take_permit p ≡ hang q)
waits true h = absurd (ground (h, arith))
waits false h = (false, refl)

abbrev permit_laws : NotifyLaws permits
permit_laws = record {
  permit = λ p. p;
  notified_takes = takes;
  notified_waits = waits;
  notify_permits = λ p. refl;
}

abbrev calls : List (SignalEvent ℕ)
calls = signalled 1 ∷ signalled 2 ∷ waited ∷ waited ∷ []

tokio_signal-slot_example :
    seen (λ t. t.1) (signal_run (tokio_signal permits) calls (false, none))
    ≡ signal_run slot calls none
tokio_signal-slot_example = tokio_signal-slot permit_laws calls (false, none) refl refl

tokio_reset_panics_example :
    ((q : Bool) × (signal_run {T = ℕ}
          (tokio_signal permits)
          (signalled 5 ∷ was_reset ∷ waited ∷ [])
          (false, none)
        ≡ panic (q, none)))
    × (signal_run {T = ℕ} slot (signalled 5 ∷ was_reset ∷ waited ∷ []) none ≡ hang none)
tokio_reset_panics_example = tokio_reset_panics permit_laws 5 [] (false, none)

abbrev take_slot : Act ⊥ (Option ℕ) ℕ
take_slot none = hang none
take_slot (some v) = ok v none

abbrev has_value : Option ℕ → Bool
has_value none = false
has_value (some v) = true

abbrev slot_signal : EmbassySignal ℕ (Option ℕ)
slot_signal = record {
  wait = take_slot;
  signal = λ v s. some v;
  reset = λ s. none;
  signaled = has_value;
}

slot_takes :
    (s : Option ℕ) (v : ℕ) → s ≡ some v → (q : Option ℕ) × (take_slot s ≡ ok v q) × (q ≡ none)
slot_takes s v h = (none, ap take_slot h, refl)

slot_waits : (s : Option ℕ) → s ≡ none → (q : Option ℕ) × (take_slot s ≡ hang q) × (q ≡ none)
slot_waits s h = (none, ap take_slot h, refl)

is_told : (s : Option ℕ) → has_value s ≡ is_some s
is_told none = refl
is_told (some v) = refl

abbrev slot_laws : SignalLaws slot_signal
slot_laws = record {
  value = λ s. s;
  wait_takes = slot_takes;
  wait_waits = slot_waits;
  signal_sets = λ v s. refl;
  reset_clears = λ s. refl;
  signaled_is = is_told;
}

embassy_signal-slot_example :
    seen slot_laws.value (signal_run (embassy_signal slot_signal) (was_reset ∷ calls) (some 9))
    ≡ signal_run slot (was_reset ∷ calls) (slot_laws.value (some 9))
embassy_signal-slot_example = embassy_signal-slot slot_laws (was_reset ∷ calls) (some 9)
