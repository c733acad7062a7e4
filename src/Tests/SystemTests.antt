-- ===== src/Tests/SystemTests.antt =====
-- The device at work, with a controller that counts its calls and fails to disconnect.
use esp32_music_server.Prelude.{
  set_at, ℕ, suc, ◌≡◌, refl, true, none, some, List, [], ◌∷◌, Bytes, codes, arith,
}
use esp32_music_server.Run.{Act, Ensures, returns, fails, ok, err, good}
use esp32_music_server.Device.StaConfig.{WifiSsidPwd}
use esp32_music_server.Device.Wifi.{Wifi, get_wifi_status}
use esp32_music_server.Device.Events.{
  Event, get_status, connect, write_config_to_flash, disconnect, DeviceState, handle_event,
}
use esp32_music_server.Device.Routes.{status_signal, flash_data_signal, Op, send, wait, Request}
use esp32_music_server.Device.System.{
  status_answer, Task, System, Work, sends, stops, IsStuck, Step,
}
use esp32_music_server.Steps.{Reach, here, next, Inevitably}
use esp32_music_server.Device.System.Serves.{WifiLaws, Serves, handle_event-Serves}
use esp32_music_server.Device.System.Inevitable.{IsAnswered, given, given-IsAnswered}
use esp32_music_server.Device.System.Race.{at_rest, status-IsStuck}
use esp32_music_server.Device.Start.{start_config}
use esp32_music_server.Device.Start.Saved.{start_config-written}
use esp32_music_server.Tests.DeviceTests.{flash, flash_laws, codec, codec_laws}

abbrev wifi : Wifi ℕ
wifi = record {
  set_config = λ c n. ok tt (suc n);
  connect_async = λ n. ok tt (suc n);
  disconnect_async = λ n. err 7 n;
  is_connected = λ n. good true;
  is_config_up = λ n. true;
  config_v4 = λ n. some (record { address = 42; gateway = none });
  hardware_address = λ n. 1 ∷ 2 ∷ [];
}

abbrev calls_end : WifiLaws wifi
calls_end = record {
  sets = λ c n. returns tt;
  connects = λ n. returns tt;
  disconnects = λ n. fails tt;
}

abbrev handle : Event → Act ⊥ (DeviceState ℕ Bytes) (Unit {0})
handle = handle_event wifi flash codec

abbrev start : System ℕ Bytes
start = at_rest 0 []

abbrev device : DeviceState ℕ Bytes
device = record {
  wifi = 3;
  flash = [];
  status_signal = some (get_wifi_status wifi 3);
  flash_data_signal = none;
}

mac_address : (get_wifi_status wifi 3).mac_address ≡ 0 ∷ 0 ∷ 0 ∷ 0 ∷ 0 ∷ 0 ∷ []
unfolding get_wifi_status
mac_address = refl

handle_event-Serves_example :
    Ensures {E = ⊥} (λ _ d. Serves disconnect device d) (λ _ _. ⊥) (handle disconnect device)
handle_event-Serves_example =
    handle_event-Serves calls_end flash_laws codec_laws disconnect device refl

-- A request for the status whose task is stopped behind the reset of the signal.
abbrev after_stop : System ℕ Bytes
after_stop = record start { tasks = set_at start.tasks 0 (record { ops = []; answer = none }) }

stopped : Reach (Step handle 1) start after_stop
stopped = next here (stops 0 (omega arith) refl)

given-IsAnswered_example :
    Inevitably
      (Work handle 1)
      (IsAnswered (some flash_data_signal))
      (given Request.get_flash_data after_stop)
given-IsAnswered_example =
    given-IsAnswered calls_end flash_laws codec_laws {start = start} {s = after_stop}
      (refl, λ i. refl) stopped refl Request.get_flash_data

status-IsStuck_example :
    (s : System ℕ Bytes) × Reach (Step handle 2) start s
    × ((s.tasks 0).ops ≡ [])
    × ((s.tasks 0).answer ≡ some (status_answer (get_wifi_status wifi 0)))
    × ((s.tasks 1).ops ≡ wait status_signal ∷ [])
    × IsStuck handle 2 s
status-IsStuck_example = status-IsStuck wifi flash codec 0 []

-- Both tasks have sent their event, and the channel is full.
abbrev task_with : List Op → Task
task_with ops = record { ops = ops; answer = none }

abbrev sending : System ℕ Bytes
sending = record start { tasks = λ i. task_with (send get_status ∷ []) }

abbrev sent_one : System ℕ Bytes
sent_one = record sending {
  events = get_status ∷ [];
  tasks = set_at sending.tasks 0 (task_with []);
}

abbrev sent_two : System ℕ Bytes
sent_two = record sent_one {
  events = get_status ∷ get_status ∷ [];
  tasks = set_at sent_one.tasks 1 (task_with []);
}

send_one : Work handle 2 sending sent_one
send_one = sends 0 get_status [] (omega arith) refl (omega arith) refl

send_two : Work handle 2 sent_one sent_two
send_two = sends 1 get_status [] (omega arith) refl (omega arith) refl

-- A start behind the writing of a name and a password.
abbrev at_home : WifiSsidPwd
at_home = record { ssid = codes "home"; pwd = codes "1234" }

abbrev no_name : WifiSsidPwd
no_name = record { ssid = []; pwd = [] }

start_config-written_example :
    (f : Bytes) × (f' : Bytes) × (handle (write_config_to_flash at_home) device
      ≡ ok tt (record device { flash = f }))
    × (start_config flash codec no_name f
        ≡ ok (record { sta_config = at_home; events = connect ∷ [] }) f')
start_config-written_example =
    start_config-written wifi flash_laws codec_laws at_home no_name
      (4 ∷ 104 ∷ 111 ∷ 109 ∷ 101 ∷ 4 ∷ 49 ∷ 50 ∷ 51 ∷ 52 ∷ []) device refl
