-- ===== src/Device/System/Inevitable.antt =====
-- A request that reaches an idle task is answered, however the work goes on.
use mathlib.Core.Path.{subst}
use esp32_music_server.Prelude.{
  set_at, ℕ, zero, suc, ◌≤◌, ◌<◌, ltb, ltb→lt, ◌≡◌, inl, inr, refl, ap, sym, true, false,
  Bool-cases, Option, none, some, List, [], ◌∷◌, length, arith,
}
use esp32_music_server.Run.{Act, Out, ok, Ensures, returns, fails}
use esp32_music_server.Device.StaConfig.{Postcard, FlashStorage}
use esp32_music_server.Device.StaConfig.RoundTrip.{FlashLaws, PostcardLaws}
use esp32_music_server.Device.Wifi.{Wifi}
use esp32_music_server.Device.Events.{Event, DeviceState, handle_event}
use esp32_music_server.Device.Routes.{
  SignalName, Op, send, reset, wait, Request, home, config, set_config, write_to_flash, status,
  get_flash_data, print_alloc, handler, status_signal, flash_data_signal,
}
use esp32_music_server.Device.System.{
  event_bound, Answer, status_answer, flash_answer, Task, System, value, as_status, as_flash, Work,
  sends, resets, takes, handles, arrives, Step,
}
use esp32_music_server.Steps.{Reach, Inevitably, already, soon}
use esp32_music_server.Device.System.Bounds.{work_left, work_left-Work}
use esp32_music_server.Device.System.Serves.{has, WifiLaws, handle_event-Serves}
use esp32_music_server.Device.System.Sound.{
  Sound, asked, has_reset, IsSafe, Serving, Work-IsSafe, Step-IsSafe, Reach-IsSafe, IsIdle,
  IsIdle-IsSafe,
}

-- The signal that an answer is from.
abbrev pub origin : Option Answer → Option SignalName
origin none = none
origin (some (status_answer v)) = some status_signal
origin (some (flash_answer v)) = some flash_data_signal

-- The signal whose value a request is answered with.
abbrev pub wanted : Request → Option SignalName
wanted status = some status_signal
wanted print_alloc = some status_signal
wanted get_flash_data = some flash_data_signal
wanted r = none

-- The signal of the answer once the calls are made.
unfoldable ending : Option SignalName → List Op → Option SignalName
ending a [] = a
ending a (send e ∷ ops) = ending a ops
ending a (reset g ∷ ops) = ending a ops
ending a (wait g ∷ ops) = ending (some g) ops

ending-handler : (r : Request) → ending none (handler r) ≡ wanted r
unfolding ending handler
ending-handler home = refl
ending-handler config = refl
ending-handler (set_config c) = refl
ending-handler (write_to_flash c) = refl
ending-handler status = refl
ending-handler get_flash_data = refl
ending-handler print_alloc = refl

abbrev outcome : Task → Option SignalName
outcome t = ending (origin t.answer) t.ops

origin-value :
    {C F : Type 0} (g : SignalName) (d : DeviceState C F) (a : Answer)
    → value g d ≡ some a
    → origin (some a) ≡ some g
origin-value status_signal d a h = of_status d.status_signal h
  where
    of_status : (o : Option _) → as_status o ≡ some a → origin (some a) ≡ some status_signal
    of_status none k = absurd (ground (arith, k))
    of_status (some v) k = sym (ap origin k)
origin-value flash_data_signal d a h = of_flash d.flash_data_signal h
  where
    of_flash : (o : Option _) → as_flash o ≡ some a → origin (some a) ≡ some flash_data_signal
    of_flash none k = absurd (ground (arith, k))
    of_flash (some v) k = sym (ap origin k)

module _ {C F : Type 0} {handle : Event → Act ⊥ (DeviceState C F) (Unit {0})} where
  outcome-Work : {s t : System C F} → Work handle 1 s t → outcome (t.tasks 0) ≡ outcome (s.tasks 0)
  unfolding ending
  outcome-Work (sends (suc i) e ops h front room e') = absurd (omega arith)
  outcome-Work (sends zero e ops h front room e') = rw e' (rw front refl)
  outcome-Work (resets (suc i) g ops h front e') = absurd (omega arith)
  outcome-Work (resets zero g ops h front e') = rw e' (rw front refl)
  outcome-Work (takes (suc i) g ops a h front v e') = absurd (omega arith)
  outcome-Work {s} (takes zero g ops a h front v e') =
      rw e' (rw front (ap (λ o. ending o ops) (origin-value g s.device a v)))
  outcome-Work (handles e es d front v e') = rw e' refl

returned :
    {S A : Type 0} {P : A → S → Type 0} {r : Out ⊥ S A}
    → Ensures P (λ _ _. ⊥) r
    → (a : A) × (s : S) × (r ≡ ok a s)
returned (returns {a} {s} h) = (a, s, refl)
returned (fails h) = absurd h

found : {A : Type 0} (o : Option A) → has o ≡ true → (a : A) × (o ≡ some a)
found none h = absurd (ground (arith, h))
found (some a) h = (a, refl)

asked-length : (g : SignalName) (es : List Event) → asked g es ≡ true → 0 < length es
asked-length g [] h = absurd (ground (arith, h))
asked-length g (e ∷ es) h = omega arith

-- While the task has a call left, a step can be made.
module _ {C F : Type 0} {handle : Event → Act ⊥ (DeviceState C F) (Unit {0})}
    (serving : Serving handle) (s : System C F) (safe : IsSafe s) where
  handle_next :
      (es : List Event) → s.events ≡ es → 0 < length es → (t : System C F) × Work handle 1 s t
  handle_next [] front h = absurd (omega arith)
  handle_next (e ∷ es) front h =
      let calm : has_reset (e ∷ es) ≡ false =
        subst (λ x. has_reset x ≡ false) front safe.no_reset in
      let (u, d, run) = returned (serving e s.device (ground (arith, calm))) in
      (_, handles e es d front run refl)

  progress :
      (o : Op) (ops : List Op) → (s.tasks 0).ops ≡ o ∷ ops → (t : System C F) × Work handle 1 s t
  unfolding Sound
  progress (send e) ops front = elim (Bool-cases (ltb (length s.events) event_bound)) [
    | inl room ↦ (_, sends 0 e ops (omega arith) front (ltb→lt _ _ room) refl)
    | inr full ↦ handle_next s.events refl (ground (arith, full))
  ]
  progress (reset g) ops front = (_, resets 0 g ops (omega arith) front refl)
  progress (wait g) ops front =
      let backed = safe.backed g (subst (Sound safe.pending) front safe.sound).0 in
      elim (Bool-cases (has (value g s.device))) [
        | inl there ↦
            let (a, v) = found (value g s.device) there in
            (_, takes 0 g ops a (omega arith) front v refl)
        | inr missing ↦
            handle_next s.events refl (asked-length g s.events (ground (arith, backed, missing)))
      ]

-- The calls are made, and the answer is from the signal.
abbrev pub IsAnswered : {C F : Type 0} → Option SignalName → System C F → Type 0
IsAnswered w s = ((s.tasks 0).ops ≡ []) × (origin (s.tasks 0).answer ≡ w)

module _ {C F : Type 0} {handle : Event → Act ⊥ (DeviceState C F) (Unit {0})}
    (serving : Serving handle) where
  inevitable :
      (k : ℕ) (s : System C F) (ops : List Op)
      → work_left 1 s ≤ k
      → IsSafe s
      → (s.tasks 0).ops ≡ ops
      → Inevitably (Work handle 1) (IsAnswered (outcome (s.tasks 0))) s
  unfolding ending
  inevitable k s [] enough safe front =
      already (front, sym (ap (ending (origin (s.tasks 0).answer)) front))
  inevitable zero s (o ∷ ops) enough safe front =
      let (t, w) = progress serving s safe o ops front in
      absurd (omega (arith, enough, work_left-Work w))
  inevitable (suc k) s (o ∷ ops) enough safe front =
      let (t, w) = progress serving s safe o ops front in
      soon t w (λ u v.
        subst (λ x. Inevitably (Work handle 1) (IsAnswered x) u) (outcome-Work v)
          (inevitable k u (u.tasks 0).ops (omega (arith, enough, work_left-Work v))
            (Work-IsSafe serving v safe) refl))

-- The first task is given a request.
abbrev pub given : {C F : Type 0} → Request → System C F → System C F
given r s = record s { tasks = set_at s.tasks 0 (record { ops = handler r; answer = none }) }

-- With one task that serves, calls of the controller that end, and the laws of the flash and of
-- postcard, a request that the idle task is given in any state that the system reaches from rest is
-- answered, however the work goes on: its calls are all made, and its answer is from the signal that
-- the request is about.
pub given-IsAnswered :
    {C F : Type 0} {wifi : Wifi C} {flash : FlashStorage F} {postcard : Postcard}
    → WifiLaws wifi
    → FlashLaws flash
    → PostcardLaws postcard
    → {start s : System C F} → IsIdle start
    → Reach (Step (handle_event wifi flash postcard) 1) start s
    → (s.tasks 0).ops ≡ []
    → (r : Request)
    → Inevitably (Work (handle_event wifi flash postcard) 1) (IsAnswered (wanted r)) (given r s)
given-IsAnswered {wifi = wifi} {flash} {postcard} calls_end flash_laws codec {s = s} idle reach done
      r =
    let serving : Serving (handle_event wifi flash postcard) =
      handle_event-Serves calls_end flash_laws codec in
    let safe : IsSafe (given r s) =
      Step-IsSafe serving (arrives 0 r (omega arith) done refl)
        (Reach-IsSafe serving (IsIdle-IsSafe idle) reach) in
    subst (λ w. Inevitably (Work (handle_event wifi flash postcard) 1) (IsAnswered w) (given r s))
      (ending-handler r)
      (inevitable serving (work_left 1 (given r s)) (given r s) (handler r) (omega arith) safe refl)
