-- ===== src/Runtime/Signal/Slot.antt =====
-- The two signals against a slot.
use esp32_music_server.Prelude.{
  arith, Option-cases, inl, inr, ◌≡◌, refl, ap, ◌∙◌, Bool, true, false, Option, none, some, List,
  [], ◌∷◌, if◌then◌else◌,
}
use esp32_music_server.Run.{ok, panic, hang, Act}
use esp32_music_server.Runtime.Seen.{seen, seen-cons}
use esp32_music_server.Runtime.Signal.{
  Notify, EmbassySignal, Signal, tokio_signal, embassy_signal, SignalEvent, signalled, waited,
  was_reset, signal_run,
}

-- What a signal promises: the slot holds the latest value, a wait takes it, and waits without one.
abbrev pub slot_wait : {T : Type 0} → Act ⊥ (Option T) T
slot_wait none = hang none
slot_wait (some v) = ok v none

abbrev pub slot : {T : Type 0} → Signal T (Option T)
slot = record { wait = slot_wait; signal = λ v s. ok tt (some v); reset = λ s. ok tt none }

-- What the code relies on: `notify_one` leaves one permit, which `notified` takes or waits for.
pub record NotifyLaws {P : Type 0} (notify : Notify P) : Type 0 where
  pub permit : P → Bool
  pub notified_takes :
      (p : P) → permit p ≡ true → (q : P) × (notify.notified p ≡ ok tt q) × (permit q ≡ false)
  pub notified_waits : (p : P) → permit p ≡ false → (q : P) × (notify.notified p ≡ hang q)
  pub notify_permits : (p : P) → permit (notify.notify_one p) ≡ true

abbrev pub is_some : {T : Type 0} → Option T → Bool
is_some none = false
is_some (some v) = true

abbrev pub no_reset : {T : Type 0} → List (SignalEvent T) → Bool
no_reset [] = true
no_reset (signalled v ∷ es) = no_reset es
no_reset (waited ∷ es) = no_reset es
no_reset (was_reset ∷ es) = false

module _ {T P : Type 0} {notify : Notify P} (laws : NotifyLaws notify) where
  -- A signal over tokio that is never reset is a slot: after any calls, the waits have returned the
  -- same values, or the last one waits, where the slot's does. There is a permit exactly where there
  -- is a value at the start.
  pub tokio_signal-slot :
      (es : List (SignalEvent T)) (s : P × Option T)
      → no_reset es ≡ true
      → laws.permit s.0 ≡ is_some s.1
      → seen (λ t. t.1) (signal_run (tokio_signal notify) es s) ≡ signal_run slot es s.1
  unfolding tokio_signal signal_run
  tokio_signal-slot [] s h inv = refl
  tokio_signal-slot (signalled v ∷ es) s h inv =
      tokio_signal-slot es (notify.notify_one s.0, some v) h (laws.notify_permits s.0)
  tokio_signal-slot (waited ∷ es) (p, none) h inv =
      let (q, e) = laws.notified_waits p inv in rw e refl
  tokio_signal-slot (waited ∷ es) (p, some v) h inv =
      let (q, e, taken) = laws.notified_takes p inv in
      rw e (
        seen-cons (λ t. t.1) v (signal_run (tokio_signal notify) es (q, none))
          (tokio_signal-slot es (q, none) h taken))
  tokio_signal-slot (was_reset ∷ es) s h inv = absurd (ground (h, arith))

  -- A signal over tokio that is reset keeps its permit: a wait behind a signal and a reset panics,
  -- where the slot's waits for the next value.
  pub tokio_reset_panics :
      (v : T) (es : List (SignalEvent T)) (s : P × Option T)
      → ((q : P) × (signal_run (tokio_signal notify) (signalled v ∷ was_reset ∷ waited ∷ es) s
            ≡ panic (q, none)))
        × (signal_run slot (signalled v ∷ was_reset ∷ waited ∷ es) s.1 ≡ hang none)
  unfolding tokio_signal signal_run
  tokio_reset_panics v es s =
      let (q, e, taken) = laws.notified_takes (notify.notify_one s.0) (laws.notify_permits s.0) in
      ((q, rw e refl), refl)

-- What the code relies on of embassy's signal.
pub record SignalLaws {T S : Type 0} (sig : EmbassySignal T S) : Type 0 where
  pub value : S → Option T
  pub wait_takes :
      (s : S) (v : T) → value s ≡ some v → (q : S) × (sig.wait s ≡ ok v q) × (value q ≡ none)
  pub wait_waits : (s : S) → value s ≡ none → (q : S) × (sig.wait s ≡ hang q) × (value q ≡ none)
  pub signal_sets : (v : T) (s : S) → value (sig.signal v s) ≡ some v
  pub reset_clears : (s : S) → value (sig.reset s) ≡ none
  pub signaled_is : (s : S) → sig.signaled s ≡ is_some (value s)

reset_none :
    {T S : Type 0} {sig : EmbassySignal T S} (laws : SignalLaws sig) (s : S)
    → laws.value (if sig.signaled s then sig.reset s else s) ≡ none
reset_none {sig} laws s = elim (Option-cases (laws.value s)) [
  | inl empty ↦ rw (laws.signaled_is s ∙ ap is_some empty) empty
  | inr (v, full) ↦ rw (laws.signaled_is s ∙ ap is_some full) (laws.reset_clears s)
]

-- A signal over embassy is a slot: after any calls, resets included, the waits have returned the
-- same values, or the last one waits, where the slot's does.
pub embassy_signal-slot :
    {T S : Type 0} {sig : EmbassySignal T S} (laws : SignalLaws sig) (es : List (SignalEvent T))
    (s : S)
    → seen laws.value (signal_run (embassy_signal sig) es s) ≡ signal_run slot es (laws.value s)
unfolding embassy_signal signal_run
embassy_signal-slot laws [] s = refl
embassy_signal-slot {sig} laws (signalled v ∷ es) s =
    embassy_signal-slot laws es (sig.signal v s) ∙ ap (signal_run slot es) (laws.signal_sets v s)
embassy_signal-slot {sig} laws (waited ∷ es) s = elim (Option-cases (laws.value s)) [
  | inl empty ↦ let (q, e, still) = laws.wait_waits s empty in rw e (rw empty (ap hang still))
  | inr (v, full) ↦
      let (q, e, taken) = laws.wait_takes s v full in
      rw e (
        rw full (
          seen-cons laws.value v (signal_run (embassy_signal sig) es q)
            (embassy_signal-slot laws es q ∙ ap (signal_run slot es) taken)))
]
embassy_signal-slot {sig} laws (was_reset ∷ es) s =
    embassy_signal-slot laws es (if sig.signaled s then sig.reset s else s)
    ∙ ap (signal_run slot es) (reset_none laws s)
