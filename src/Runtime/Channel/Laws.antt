-- ===== src/Runtime/Channel/Laws.antt =====
-- The channels of tokio and of embassy as bounded queues.
use esp32_music_server.Prelude.{ℕ, ◌-◌, ◌≤◌, ◌<◌, ◌≡◌, some, List, [], ◌∷◌, ◌++◌, length, ◌==◌}
use esp32_music_server.Run.{ok, err, hang}
use esp32_music_server.Runtime.Channel.{Mpsc, EmbassyChannel}

-- What the code relies on: both channels hold a queue of at most `bound` messages. A send puts its
-- message behind the others, or waits while the queue is full; a receive takes the first, or waits
-- while there is none. `capacity` of tokio's receiver is the number of free places, and of embassy's
-- channel the bound. The two halves of tokio's channel are kept together, so that neither is gone.
pub record MpscLaws {T C : Type 0} (bound : ℕ) (ch : Mpsc T C) : Type 0 where
  pub queue : C → List T
  pub queue_fits : (s : C) → length (queue s) ≤ bound
  pub send_puts :
      (msg : T) (s : C)
      → length (queue s) < bound
      → (t : C) × (ch.send msg s ≡ ok tt t) × (queue t ≡ queue s ++ msg ∷ [])
  pub send_waits :
      (msg : T) (s : C)
      → bound ≤ length (queue s)
      → (t : C) × (ch.send msg s ≡ hang t) × (queue t ≡ queue s)
  pub recv_takes :
      (msg : T) (q : List T) (s : C)
      → queue s ≡ msg ∷ q
      → (t : C) × (ch.recv s ≡ ok (some msg) t) × (queue t ≡ q)
  pub recv_waits : (s : C) → queue s ≡ [] → (t : C) × (ch.recv s ≡ hang t) × (queue t ≡ [])
  pub try_recv_takes :
      (msg : T) (q : List T) (s : C)
      → queue s ≡ msg ∷ q
      → (t : C) × (ch.try_recv s ≡ ok msg t) × (queue t ≡ q)
  pub try_recv_fails :
      (s : C) → queue s ≡ [] → (t : C) × (ch.try_recv s ≡ err tt t) × (queue t ≡ [])
  pub is_empty_is : (s : C) → ch.is_empty s ≡ (length (queue s) == 0)
  pub len_is : (s : C) → ch.len s ≡ length (queue s)
  pub capacity_is : (s : C) → ch.capacity s ≡ bound - length (queue s)

pub record EmbassyLaws {T C : Type 0} (bound : ℕ) (ch : EmbassyChannel T C) : Type 0 where
  pub queue : C → List T
  pub queue_fits : (s : C) → length (queue s) ≤ bound
  pub send_puts :
      (msg : T) (s : C)
      → length (queue s) < bound
      → (t : C) × (ch.send msg s ≡ ok tt t) × (queue t ≡ queue s ++ msg ∷ [])
  pub send_waits :
      (msg : T) (s : C)
      → bound ≤ length (queue s)
      → (t : C) × (ch.send msg s ≡ hang t) × (queue t ≡ queue s)
  pub receive_takes :
      (msg : T) (q : List T) (s : C)
      → queue s ≡ msg ∷ q
      → (t : C) × (ch.receive s ≡ ok msg t) × (queue t ≡ q)
  pub receive_waits : (s : C) → queue s ≡ [] → (t : C) × (ch.receive s ≡ hang t) × (queue t ≡ [])
  pub try_receive_takes :
      (msg : T) (q : List T) (s : C)
      → queue s ≡ msg ∷ q
      → (t : C) × (ch.try_receive s ≡ ok msg t) × (queue t ≡ q)
  pub try_receive_fails :
      (s : C) → queue s ≡ [] → (t : C) × (ch.try_receive s ≡ err tt t) × (queue t ≡ [])
  pub is_empty_is : (s : C) → ch.is_empty s ≡ (length (queue s) == 0)
  pub len_is : (s : C) → ch.len s ≡ length (queue s)
  pub capacity_is : (s : C) → ch.capacity s ≡ bound
