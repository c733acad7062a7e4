-- ===== src/Device/System/Bounds.antt =====
-- The work in progress ends, and the room that the event channel has.
use esp32_music_server.Prelude.{
  total, total-set_at, ℕ, suc, ◌+◌, ◌*◌, ◌<◌, ◌≤◌, ap, some, [], ◌∷◌, length, length-append, arith,
}
use esp32_music_server.Run.{Act}
use esp32_music_server.Device.Events.{Event, DeviceState}
use esp32_music_server.Device.System.{
  event_bound, Task, System, Work, sends, resets, takes, handles, Step, works, arrives, stops,
}

abbrev pub IsBounded : {C F : Type 0} → System C F → Type 0
IsBounded s = length s.events ≤ event_bound

module _ {C F : Type 0} {handle : Event → Act ⊥ (DeviceState C F) (Unit {0})} {n : ℕ} where
  pub Work-IsBounded : {s t : System C F} → Work handle n s t → IsBounded s → IsBounded t
  Work-IsBounded {s} (sends i e ops h front room e') b =
      rw e' (omega (arith, length-append s.events (e ∷ [])))
  Work-IsBounded (resets i g ops h front e') b = rw e' b
  Work-IsBounded (takes i g ops a h front v e') b = rw e' b
  Work-IsBounded (handles e events d front v e') b = rw e' (omega (arith, ap length front))

  pub Step-IsBounded : {s t : System C F} → Step handle n s t → IsBounded s → IsBounded t
  Step-IsBounded (works w) b = Work-IsBounded w b
  Step-IsBounded (arrives i r h done e') b = rw e' b
  Step-IsBounded (stops i h e') b = rw e' b

-- The calls that the task has left.
abbrev calls : Task → ℕ
calls t = length t.ops

-- Each call that is left costs two steps at most: the call, and the handling of what it sent.
unfoldable pub work_left : {C F : Type 0} → ℕ → System C F → ℕ
work_left n s = 2 * total calls n s.tasks + length s.events

module _ {C F : Type 0} {handle : Event → Act ⊥ (DeviceState C F) (Unit {0})} {n : ℕ} where
  pub work_left-Work : {s t : System C F} → Work handle n s t → work_left n t < work_left n s
  unfolding work_left
  work_left-Work {s} (sends i e ops h front room e') = rw e' (
      omega (
        arith,
        total-set_at calls n i s.tasks (record { ops = ops; answer = (s.tasks i).answer }) h,
        ap (λ o. length o) front,
        length-append s.events (e ∷ []),
      ))
  work_left-Work {s} (resets i g ops h front e') = rw e' (
      omega (
        arith,
        total-set_at calls n i s.tasks (record { ops = ops; answer = (s.tasks i).answer }) h,
        ap (λ o. length o) front,
      ))
  work_left-Work {s} (takes i g ops a h front v e') = rw e' (
      omega (
        arith,
        total-set_at calls n i s.tasks (record { ops = ops; answer = some a }) h,
        ap (λ o. length o) front,
      ))
  work_left-Work (handles e events d front v e') = rw e' (omega (arith, ap (λ o. length o) front))

-- A run of `k` steps of the work in progress.
pub data Works {C F : Type 0} (handle : Event → Act ⊥ (DeviceState C F) (Unit {0})) (n : ℕ)
    : ℕ → System C F → System C F → Type 0 where
  no_steps : {s : System C F} → Works handle n 0 s s
  one_more :
      {k : ℕ} {s t u : System C F}
      → Work handle n s t
      → Works handle n k t u
      → Works handle n (suc k) s u

-- Without new requests the work ends, however it interleaves: from any state there are at most two
-- steps for each call that a task has left, and one for each event in the channel.
pub Works-bounded :
    {C F : Type 0} {handle : Event → Act ⊥ (DeviceState C F) (Unit {0})} {n k : ℕ}
    {s t : System C F}
    → Works handle n k s t
    → k + work_left n t ≤ work_left n s
Works-bounded no_steps = omega arith
Works-bounded (one_more w ws) = omega (arith, work_left-Work w, Works-bounded ws)
