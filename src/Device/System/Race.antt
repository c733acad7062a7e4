-- ===== src/Device/System/Race.antt =====
-- Two tasks and one signal.
use esp32_music_server.Prelude.{zero, suc, ◌<◌, ◌≡◌, refl, ap, none, some, [], ◌∷◌, length, arith}
use esp32_music_server.Run.{Act}
use esp32_music_server.Device.StaConfig.{Postcard, FlashStorage}
use esp32_music_server.Device.Wifi.{Wifi, get_wifi_status}
use esp32_music_server.Device.Events.{Event, get_status, DeviceState, handle_event}
use esp32_music_server.Device.Routes.{status_signal, flash_data_signal, wait, status, handler}
use esp32_music_server.Device.System.{
  status_answer, System, as_status, sends, resets, takes, handles, works, arrives, IsStuck, Step,
}
use esp32_music_server.Steps.{Reach, here, next}

first : 0 < 2
first = omega arith

second : 1 < 2
second = omega arith

module _ {C F : Type 0} {handle : Event → Act ⊥ (DeviceState C F) (Unit {0})} where
  -- Two tasks, of which one is done and one waits for a signal that has no value, with no event left.
  waiting-IsStuck :
      (s : System C F)
      → s.events ≡ []
      → (s.tasks 0).ops ≡ []
      → (s.tasks 1).ops ≡ wait status_signal ∷ []
      → s.device.status_signal ≡ none
      → IsStuck handle 2 s
  waiting-IsStuck s none_left done waits no_value t (handles e es d front v e') =
      absurd (omega (arith, ap length none_left, ap length front))
  waiting-IsStuck s none_left done waits no_value t (sends zero e ops h front room e') =
      absurd (omega (arith, ap length done, ap length front))
  waiting-IsStuck s none_left done waits no_value t (sends (suc zero) e ops h front room e') =
      absurd (ground (arith, front, waits))
  waiting-IsStuck s none_left done waits no_value t (sends (suc (suc i)) e ops h front room e') =
      absurd (omega arith)
  waiting-IsStuck s none_left done waits no_value t (resets zero g ops h front e') =
      absurd (omega (arith, ap length done, ap length front))
  waiting-IsStuck s none_left done waits no_value t (resets (suc zero) g ops h front e') =
      absurd (ground (arith, front, waits))
  waiting-IsStuck s none_left done waits no_value t (resets (suc (suc i)) g ops h front e') =
      absurd (omega arith)
  waiting-IsStuck s none_left done waits no_value t (takes zero g ops a h front v e') =
      absurd (omega (arith, ap length done, ap length front))
  waiting-IsStuck s none_left done waits no_value t
        (takes (suc zero) status_signal ops a h front v e') =
      absurd (ground (arith, ap as_status no_value, v))
  waiting-IsStuck s none_left done waits no_value t
        (takes (suc zero) flash_data_signal ops a h front v e') =
      absurd (ground (arith, front, waits))
  waiting-IsStuck s none_left done waits no_value t (takes (suc (suc i)) g ops a h front v e') =
      absurd (omega arith)

abbrev pub at_rest : {C F : Type 0} → C → F → System C F
at_rest c f = record {
  events = [];
  device = record { wifi = c; flash = f; status_signal = none; flash_data_signal = none };
  tasks = λ i. record { ops = []; answer = none };
}

-- With two tasks, which share the signal, a request for the status can wait for ever, though the
-- handler has ended all events: from rest, the system reaches a state where one of two requests for
-- the status is answered and the other waits, and no step of the work can be made.
pub status-IsStuck :
    {C F : Type 0} (wifi : Wifi C) (flash : FlashStorage F) (postcard : Postcard) (c : C) (f : F)
    → (s : System C F) × Reach (Step (handle_event wifi flash postcard) 2) (at_rest c f) s
      × ((s.tasks 0).ops ≡ [])
      × ((s.tasks 0).answer ≡ some (status_answer (get_wifi_status wifi c)))
      × ((s.tasks 1).ops ≡ wait status_signal ∷ [])
      × IsStuck (handle_event wifi flash postcard) 2 s
unfolding handle_event handler
status-IsStuck wifi flash postcard c f =
    let given_both =
      next (next here (arrives 0 status first refl refl)) (arrives 1 status second refl refl) in
    let first_sent =
      next (next given_both (works (resets 0 status_signal _ first refl refl)))
        (works (sends 0 get_status _ first refl (omega arith) refl)) in
    let sent_both =
      next (next first_sent (works (resets 1 status_signal _ second refl refl)))
        (works (sends 1 get_status _ second refl (omega arith) refl)) in
    let handled_both =
      next (next sent_both (works (handles get_status _ _ refl refl refl)))
        (works (handles get_status _ _ refl refl refl)) in
    (
      _,
      next handled_both (works (takes 0 status_signal _ _ first refl refl refl)),
      refl,
      refl,
      refl,
      waiting-IsStuck _ refl refl refl refl,
    )
