-- ===== src/Device/System.antt =====
-- The device at work: the tasks that serve HTTP (`http_server_task` of actual/src/http_task.rs), the
-- event channel and the event handler's task. Between two of its calls a task may wait for as long as
-- it likes, so that the steps of all tasks interleave.
pub mod Bounds
pub mod Serves
pub mod Sound
pub mod Inevitable
pub mod Race
use esp32_music_server.Prelude.{
  ℕ, ◌+◌, ◌<◌, ◌≡◌, Bool, true, false, Option, none, some, List, [], ◌∷◌, ◌++◌, length, set_at,
}
use esp32_music_server.Run.{Act, ok}
use esp32_music_server.Device.StaConfig.{WifiSsidPwd}
use esp32_music_server.Device.Wifi.{WifiStatus}
use esp32_music_server.Device.Events.{Event, DeviceState}
use esp32_music_server.Device.Routes.{
  SignalName, status_signal, flash_data_signal, Op, send, reset, wait, Request, handler,
}

-- `Channel<_, Event, 2>`
abbrev pub event_bound : ℕ
event_bound = 2

-- What a wait has returned.
pub data Answer : Type 0 where
  status_answer : WifiStatus → Answer
  flash_answer : WifiSsidPwd → Answer

-- A task that serves a request has calls left to make; the reply holds what its wait returned.
pub record Task : Type 0 where
  pub ops : List Op
  pub answer : Option Answer

pub record System (C F : Type 0) : Type 0 where
  pub events : List Event
  pub device : DeviceState C F
  pub tasks : ℕ → Task

abbrev pub as_status : Option WifiStatus → Option Answer
as_status none = none
as_status (some v) = some (status_answer v)

abbrev pub as_flash : Option WifiSsidPwd → Option Answer
as_flash none = none
as_flash (some v) = some (flash_answer v)

module _ {C F : Type 0} where
  -- The value of a signal, and the device without it.
  abbrev pub value : SignalName → DeviceState C F → Option Answer
  value status_signal s = as_status s.status_signal
  value flash_data_signal s = as_flash s.flash_data_signal

  abbrev pub cleared : SignalName → DeviceState C F → DeviceState C F
  cleared status_signal s = record s { status_signal = none }
  cleared flash_data_signal s = record s { flash_data_signal = none }

  module _ (handle : Event → Act ⊥ (DeviceState C F) (Unit {0})) (n : ℕ) where
    -- A step of the work in progress: a call of one of the `n` tasks, which is made when it need not
    -- wait, or an event that the handler takes from the channel.
    pub data Work (s t : System C F) : Type 0 where
      sends :
          (i : ℕ) (e : Event) (ops : List Op)
          → i < n
          → (s.tasks i).ops ≡ send e ∷ ops
          → length s.events < event_bound
          → t ≡ record s {
            events = s.events ++ e ∷ [];
            tasks = set_at s.tasks i (record { ops = ops; answer = (s.tasks i).answer });
          }
          → Work s t
      resets :
          (i : ℕ) (g : SignalName) (ops : List Op)
          → i < n
          → (s.tasks i).ops ≡ reset g ∷ ops
          → t ≡ record s {
            device = cleared g s.device;
            tasks = set_at s.tasks i (record { ops = ops; answer = (s.tasks i).answer });
          }
          → Work s t
      takes :
          (i : ℕ) (g : SignalName) (ops : List Op) (a : Answer)
          → i < n
          → (s.tasks i).ops ≡ wait g ∷ ops
          → value g s.device ≡ some a
          → t ≡ record s {
            device = cleared g s.device;
            tasks = set_at s.tasks i (record { ops = ops; answer = some a });
          }
          → Work s t
      handles :
          (e : Event) (events : List Event) (d : DeviceState C F)
          → s.events ≡ e ∷ events
          → handle e s.device ≡ ok tt d
          → t ≡ record s { events = events; device = d }
          → Work s t

    -- A step of the whole system: a task that is done is given a request, or one is stopped by the
    -- timeout around `serve`.
    pub data Step (s t : System C F) : Type 0 where
      works : Work s t → Step s t
      arrives :
          (i : ℕ) (r : Request)
          → i < n
          → (s.tasks i).ops ≡ []
          → t ≡ record s { tasks = set_at s.tasks i (record { ops = handler r; answer = none }) }
          → Step s t
      stops :
          (i : ℕ)
          → i < n
          → t ≡ record s { tasks = set_at s.tasks i (record { ops = []; answer = none }) }
          → Step s t

    -- No step of the work in progress can be made.
    abbrev pub IsStuck : System C F → Type 0
    IsStuck s = (t : System C F) → Work s t → ⊥
