-- ===== src/Runtime/Channel/Fifo.antt =====
-- The two channels against a bounded queue.
use esp32_music_server.Prelude.{
  ℕ, ◌-◌, ◌≡◌, refl, ap, ◌∙◌, Bool, Option, none, some, List, [], ◌∷◌, ◌++◌, length, ltb, ltb→lt,
  ◌==◌, if◌then◌else◌, Bool-cases, inl, inr, arith,
}
use esp32_music_server.Run.{Out, ok, hang, Act, pure, and_then, ◌>>=◌, unwrap}
use esp32_music_server.Runtime.Seen.{seen, seen-and_then}
use esp32_music_server.Runtime.Channel.Laws.{MpscLaws, EmbassyLaws}
use esp32_music_server.Runtime.Channel.{
  Mpsc, EmbassyChannel, Channel, ok_of, unwrap_option, tokio_channel, embassy_channel, ChannelCall,
  ChannelAnswer, channel_call, channel_run,
}

-- What a channel promises: the messages come out in the order in which they went in, a send waits
-- where the queue is full, and a receive where it is empty. `full` is what it says of a queue.
abbrev pub queue_send : {T : Type 0} → ℕ → T → Act ⊥ (List T) (Unit {0})
queue_send bound msg q = if ltb (length q) bound then ok tt (q ++ msg ∷ []) else hang q

abbrev pub queue_recv : {T : Type 0} → Act ⊥ (List T) T
queue_recv [] = hang []
queue_recv (msg ∷ q) = ok msg q

abbrev pub queue_try_recv : {T : Type 0} → Act ⊥ (List T) (Option T)
queue_try_recv [] = ok none []
queue_try_recv (msg ∷ q) = ok (some msg) q

abbrev pub queue_channel : {T : Type 0} → ℕ → (List T → Bool) → Channel T (List T)
queue_channel bound full = record {
  send = queue_send bound;
  recv = queue_recv;
  try_recv = queue_try_recv;
  is_empty = λ q. ok (length q == 0) q;
  len = λ q. ok (length q) q;
  is_full = λ q. ok (full q) q;
}

-- Each method does what the other's does.
record Simulates {T C Q : Type 0} (view : C → Q) (ch : Channel T C) (ref : Channel T Q)
    : Type 0 where
  send : (msg : T) (s : C) → seen view (ch.send msg s) ≡ ref.send msg (view s)
  recv : (s : C) → seen view (ch.recv s) ≡ ref.recv (view s)
  try_recv : (s : C) → seen view (ch.try_recv s) ≡ ref.try_recv (view s)
  is_empty : (s : C) → seen view (ch.is_empty s) ≡ ref.is_empty (view s)
  len : (s : C) → seen view (ch.len s) ≡ ref.len (view s)
  is_full : (s : C) → seen view (ch.is_full s) ≡ ref.is_full (view s)

module _ {T C Q : Type 0} {view : C → Q} {ch : Channel T C} {ref : Channel T Q}
    (sim : Simulates view ch ref) where
  answered :
      {A : Type 0} (f : A → ChannelAnswer T) (r : Out ⊥ C A) {r' : Out ⊥ Q A}
      → seen view r ≡ r'
      → seen view (and_then r (λ a. pure (f a))) ≡ and_then r' (λ a. pure (f a))
  answered f r e =
      seen-and_then view r (λ a. pure (f a)) (λ a. pure (f a)) (λ a s. refl)
      ∙ ap (λ o. and_then o (λ a. pure (f a))) e

  channel_call-seen :
      (call : ChannelCall T) (s : C)
      → seen view (channel_call ch call s) ≡ channel_call ref call (view s)
  unfolding channel_call
  channel_call-seen (ChannelCall.send msg) s = answered _ (ch.send msg s) (sim.send msg s)
  channel_call-seen ChannelCall.recv s = answered _ (ch.recv s) (sim.recv s)
  channel_call-seen ChannelCall.try_recv s = answered _ (ch.try_recv s) (sim.try_recv s)
  channel_call-seen ChannelCall.is_empty s = answered _ (ch.is_empty s) (sim.is_empty s)
  channel_call-seen ChannelCall.len s = answered _ (ch.len s) (sim.len s)
  channel_call-seen ChannelCall.is_full s = answered _ (ch.is_full s) (sim.is_full s)

  channel_run-seen :
      (calls : List (ChannelCall T)) (s : C)
      → seen view (channel_run ch calls s) ≡ channel_run ref calls (view s)
  unfolding channel_run
  channel_run-seen [] s = refl
  channel_run-seen (call ∷ calls) s =
      seen-and_then view (channel_call ch call s) _
        (λ a. channel_run ref calls >>= λ answers. pure (a ∷ answers))
        (λ a t.
          seen-and_then view (channel_run ch calls t) _ (λ answers. pure (a ∷ answers))
            (λ answers u. refl)
          ∙ ap (λ o. and_then o (λ answers. pure (a ∷ answers))) (channel_run-seen calls t))
      ∙ ap (λ o. and_then o (λ a. channel_run ref calls >>= λ answers. pure (a ∷ answers)))
          (channel_call-seen call s)

-- What the two say of a full queue.
abbrev pub is_half : {T : Type 0} → ℕ → List T → Bool
is_half bound q = length q == bound - length q

abbrev pub is_whole : {T : Type 0} → ℕ → List T → Bool
is_whole bound q = length q == bound

module _ {T C : Type 0} {bound : ℕ} where
  tokio-Simulates :
      {ch : Mpsc T C} (laws : MpscLaws bound ch)
      → Simulates laws.queue (tokio_channel ch) (queue_channel bound (is_half bound))
  unfolding tokio_channel
  tokio-Simulates {ch} laws = record {
    send = sends;
    recv = λ s. recvs s (laws.queue s) refl;
    try_recv = λ s. tries s (laws.queue s) refl;
    is_empty = λ s. ap (λ b. ok b (laws.queue s)) (laws.is_empty_is s);
    len = λ s. ap (λ n. ok n (laws.queue s)) (laws.len_is s);
    is_full = λ s. rw (laws.len_is s) (rw (laws.capacity_is s) refl);
  }
    where
      sends :
          (msg : T) (s : C)
          → seen laws.queue (unwrap (ch.send msg s)) ≡ queue_send bound msg (laws.queue s)
      sends msg s = elim (Bool-cases (ltb (length (laws.queue s)) bound)) [
        | inl room ↦
            let (t, e, q) = laws.send_puts msg s (ltb→lt _ _ room) in rw e (rw room (ap (ok tt) q))
        | inr full ↦
            let (t, e, q) = laws.send_waits msg s (ground (arith, full)) in
            rw e (rw full (ap hang q))
      ]

      recvs :
          (s : C) (q : List T)
          → laws.queue s ≡ q
          → seen laws.queue (and_then (ch.recv s) unwrap_option) ≡ queue_recv (laws.queue s)
      recvs s [] front = let (t, e, q) = laws.recv_waits s front in rw e (rw front (ap hang q))
      recvs s (msg ∷ rest) front =
          let (t, e, q) = laws.recv_takes msg rest s front in rw e (rw front (ap (ok msg) q))

      tries :
          (s : C) (q : List T)
          → laws.queue s ≡ q
          → seen laws.queue (ok_of (ch.try_recv s)) ≡ queue_try_recv (laws.queue s)
      tries s [] front =
          let (t, e, q) = laws.try_recv_fails s front in rw e (rw front (ap (ok none) q))
      tries s (msg ∷ rest) front =
          let (t, e, q) = laws.try_recv_takes msg rest s front in
          rw e (rw front (ap (ok (some msg)) q))

  embassy-Simulates :
      {ch : EmbassyChannel T C} (laws : EmbassyLaws bound ch)
      → Simulates laws.queue (embassy_channel ch) (queue_channel bound (is_whole bound))
  unfolding embassy_channel
  embassy-Simulates {ch} laws = record {
    send = sends;
    recv = λ s. recvs s (laws.queue s) refl;
    try_recv = λ s. tries s (laws.queue s) refl;
    is_empty = λ s. ap (λ b. ok b (laws.queue s)) (laws.is_empty_is s);
    len = λ s. ap (λ n. ok n (laws.queue s)) (laws.len_is s);
    is_full = λ s. rw (laws.len_is s) (rw (laws.capacity_is s) refl);
  }
    where
      sends :
          (msg : T) (s : C) → seen laws.queue (ch.send msg s) ≡ queue_send bound msg (laws.queue s)
      sends msg s = elim (Bool-cases (ltb (length (laws.queue s)) bound)) [
        | inl room ↦
            let (t, e, q) = laws.send_puts msg s (ltb→lt _ _ room) in rw e (rw room (ap (ok tt) q))
        | inr full ↦
            let (t, e, q) = laws.send_waits msg s (ground (arith, full)) in
            rw e (rw full (ap hang q))
      ]

      recvs :
          (s : C) (q : List T)
          → laws.queue s ≡ q
          → seen laws.queue (ch.receive s) ≡ queue_recv (laws.queue s)
      recvs s [] front = let (t, e, q) = laws.receive_waits s front in rw e (rw front (ap hang q))
      recvs s (msg ∷ rest) front =
          let (t, e, q) = laws.receive_takes msg rest s front in rw e (rw front (ap (ok msg) q))

      tries :
          (s : C) (q : List T)
          → laws.queue s ≡ q
          → seen laws.queue (ok_of (ch.try_receive s)) ≡ queue_try_recv (laws.queue s)
      tries s [] front =
          let (t, e, q) = laws.try_receive_fails s front in rw e (rw front (ap (ok none) q))
      tries s (msg ∷ rest) front =
          let (t, e, q) = laws.try_receive_takes msg rest s front in
          rw e (rw front (ap (ok (some msg)) q))

-- Both channels are bounded queues: after any calls they have answered what a queue of at most
-- `bound` messages answers, where the messages come out in the order in which they went in, a send
-- waits while it is full and a receive while it is empty. They differ in what they call full: over
-- embassy a queue of `bound` messages, and over tokio one whose length is the number of its free
-- places.
pub channels-queue :
    {T C E : Type 0} (bound : ℕ) {tokio : Mpsc T C} {embassy : EmbassyChannel T E}
    (laws : MpscLaws bound tokio) (laws' : EmbassyLaws bound embassy) (calls : List (ChannelCall T))
    (s : C) (s' : E)
    → (seen laws.queue (channel_run (tokio_channel tokio) calls s)
        ≡ channel_run (queue_channel bound (is_half bound)) calls (laws.queue s))
      × (seen laws'.queue (channel_run (embassy_channel embassy) calls s')
          ≡ channel_run (queue_channel bound (is_whole bound)) calls (laws'.queue s'))
channels-queue bound laws laws' calls s s' = (
  channel_run-seen (tokio-Simulates laws) calls s,
  channel_run-seen (embassy-Simulates laws') calls s',
)
