-- ===== src/Tests/ChannelTests.antt =====
-- Channels of file_manager/src/runtime at a concrete queue.
use esp32_music_server.Prelude.{
  ℕ, ◌-◌, ◌<◌, ◌⊎◌, inl, inr, Bool-cases, length-append, ◌≤◌, ◌≡◌, refl, ap, true, false, ◌==◌, leb,
  Option, some, List, [], ◌∷◌, ◌++◌, length, arith,
}
use esp32_music_server.Run.{Out, ok, err, hang, Act}
use esp32_music_server.Runtime.Channel.{
  Mpsc, EmbassyChannel, ChannelCall, sent, received, tried, told, counted, channel_run,
  tokio_channel, embassy_channel,
}
use esp32_music_server.Runtime.Channel.Laws.{MpscLaws, EmbassyLaws}
use esp32_music_server.Runtime.Channel.Fifo.{queue_channel, is_half, is_whole, channels-queue}
use esp32_music_server.Runtime.Seen.{seen}

-- A queue of at most four numbers.
abbrev Queue : Type 0
Queue = (q : List ℕ) × (length q ≤ 4)

one_more : (q : List ℕ) (n : ℕ) → leb 4 (length q) ≡ false → length (q ++ (n ∷ [])) ≤ 4
one_more q n room =
    let below : length q < 4 = ground arith in omega (arith, below, length-append q (n ∷ []))

abbrev push :
    {E : Type 0} (n : ℕ) (s : Queue)
    → (leb 4 (length s.0) ≡ true) ⊎ (leb 4 (length s.0) ≡ false)
    → Out E Queue (Unit {0})
push n s (inl full) = hang s
push n s (inr room) = ok tt (s.0 ++ (n ∷ []), one_more s.0 n room)

abbrev popped : (n : ℕ) (q : List ℕ) → length (n ∷ q) ≤ 4 → Queue
popped n q h = (q, omega (arith, h))

abbrev take_one : {E : Type 0} → E → Act E Queue ℕ
take_one e ([], h) = err e ([], h)
take_one e (n ∷ q, h) = ok n (popped n q h)

abbrev receive_one : Act ⊥ Queue ℕ
receive_one ([], h) = hang ([], h)
receive_one (n ∷ q, h) = ok n (popped n q h)

abbrev receive_some : Act ⊥ Queue (Option ℕ)
receive_some ([], h) = hang ([], h)
receive_some (n ∷ q, h) = ok (some n) (popped n q h)

abbrev mpsc : Mpsc ℕ Queue
mpsc = record {
  send = λ n s. push n s (Bool-cases (leb 4 (length s.0)));
  recv = receive_some;
  try_recv = take_one tt;
  is_empty = λ s. length s.0 == 0;
  len = λ s. length s.0;
  capacity = λ s. 4 - length s.0;
}

abbrev embassy_queue : EmbassyChannel ℕ Queue
embassy_queue = record {
  send = λ n s. push n s (Bool-cases (leb 4 (length s.0)));
  receive = receive_one;
  try_receive = take_one tt;
  is_empty = λ s. length s.0 == 0;
  len = λ s. length s.0;
  capacity = λ s. 4;
}

-- The cases of a send, and of a receive.
pushed :
    {E : Type 0} (n : ℕ) (s : Queue)
    (b : (leb 4 (length s.0) ≡ true) ⊎ (leb 4 (length s.0) ≡ false))
    → length s.0 < 4
    → (t : Queue) × (push {E = E} n s b ≡ ok tt t) × (t.0 ≡ s.0 ++ n ∷ [])
pushed n s (inl full) room = absurd (ground (arith, full, room))
pushed n s (inr fits) room = ((s.0 ++ (n ∷ []), one_more s.0 n fits), refl, refl)

not_pushed :
    {E : Type 0} (n : ℕ) (s : Queue)
    (b : (leb 4 (length s.0) ≡ true) ⊎ (leb 4 (length s.0) ≡ false))
    → 4 ≤ length s.0
    → (t : Queue) × (push {E = E} n s b ≡ hang t) × (t.0 ≡ s.0)
not_pushed n s (inl full) h = (s, refl, refl)
not_pushed n s (inr fits) h = absurd (ground (arith, fits, h))

abbrev head_or : ℕ → List ℕ → ℕ
head_or d [] = d
head_or d (n ∷ q) = n

abbrev tail : List ℕ → List ℕ
tail [] = []
tail (n ∷ q) = q

module _ (n : ℕ) (q : List ℕ) where
  taken_one :
      {E : Type 0} (e : E) (s : Queue)
      → s.0 ≡ n ∷ q
      → (t : Queue) × (take_one e s ≡ ok n t) × (t.0 ≡ q)
  taken_one e ([], h) front = absurd (omega (arith, ap length front))
  taken_one e (m ∷ p, h) front =
      (popped m p h, ap (λ k. ok k (popped m p h)) (ap (head_or n) front), ap tail front)

  received_one : (s : Queue) → s.0 ≡ n ∷ q → (t : Queue) × (receive_one s ≡ ok n t) × (t.0 ≡ q)
  received_one ([], h) front = absurd (omega (arith, ap length front))
  received_one (m ∷ p, h) front =
      (popped m p h, ap (λ k. ok k (popped m p h)) (ap (head_or n) front), ap tail front)

  received_some :
      (s : Queue) → s.0 ≡ n ∷ q → (t : Queue) × (receive_some s ≡ ok (some n) t) × (t.0 ≡ q)
  received_some ([], h) front = absurd (omega (arith, ap length front))
  received_some (m ∷ p, h) front =
      (popped m p h, ap (λ k. ok (some k) (popped m p h)) (ap (head_or n) front), ap tail front)

taken_none :
    {E : Type 0} (e : E) (s : Queue)
    → s.0 ≡ []
    → (t : Queue) × (take_one e s ≡ err e t) × (t.0 ≡ [])
taken_none e ([], h) front = (_, refl, refl)
taken_none e (m ∷ p, h) front = absurd (omega (arith, ap length front))

received_none : (s : Queue) → s.0 ≡ [] → (t : Queue) × (receive_one s ≡ hang t) × (t.0 ≡ [])
received_none ([], h) front = (_, refl, refl)
received_none (m ∷ p, h) front = absurd (omega (arith, ap length front))

received_nothing : (s : Queue) → s.0 ≡ [] → (t : Queue) × (receive_some s ≡ hang t) × (t.0 ≡ [])
received_nothing ([], h) front = (_, refl, refl)
received_nothing (m ∷ p, h) front = absurd (omega (arith, ap length front))

abbrev mpsc_laws : MpscLaws 4 mpsc
mpsc_laws = record {
  queue = λ s. s.0;
  queue_fits = λ s. s.1;
  send_puts = λ n s h. pushed n s (Bool-cases (leb 4 (length s.0))) h;
  send_waits = λ n s h. not_pushed n s (Bool-cases (leb 4 (length s.0))) h;
  recv_takes = received_some;
  recv_waits = received_nothing;
  try_recv_takes = λ n q s h. taken_one n q tt s h;
  try_recv_fails = λ s h. taken_none tt s h;
  is_empty_is = λ s. refl;
  len_is = λ s. refl;
  capacity_is = λ s. refl;
}

abbrev embassy_laws : EmbassyLaws 4 embassy_queue
embassy_laws = record {
  queue = λ s. s.0;
  queue_fits = λ s. s.1;
  send_puts = λ n s h. pushed n s (Bool-cases (leb 4 (length s.0))) h;
  send_waits = λ n s h. not_pushed n s (Bool-cases (leb 4 (length s.0))) h;
  receive_takes = received_one;
  receive_waits = received_none;
  try_receive_takes = λ n q s h. taken_one n q tt s h;
  try_receive_fails = λ s h. taken_none tt s h;
  is_empty_is = λ s. refl;
  len_is = λ s. refl;
  capacity_is = λ s. refl;
}

abbrev two : Queue
two = (7 ∷ 8 ∷ [], omega arith)

-- A queue of at most four with two messages is full only over tokio.
abbrev some_calls : List (ChannelCall ℕ)
some_calls =
    ChannelCall.is_full
    ∷ ChannelCall.send 9
    ∷ ChannelCall.recv
    ∷ ChannelCall.len
    ∷ ChannelCall.try_recv
    ∷ []

answers_tokio :
    channel_run (queue_channel 4 (is_half 4)) some_calls (7 ∷ 8 ∷ [])
    ≡ ok (told true ∷ sent ∷ received 7 ∷ counted 2 ∷ tried (some 8) ∷ []) (9 ∷ [])
unfolding channel_run
answers_tokio = refl

channels-queue_example :
    (seen mpsc_laws.queue (channel_run (tokio_channel mpsc) some_calls two)
      ≡ channel_run (queue_channel 4 (is_half 4)) some_calls (mpsc_laws.queue two))
    × (seen embassy_laws.queue (channel_run (embassy_channel embassy_queue) some_calls two)
        ≡ channel_run (queue_channel 4 (is_whole 4)) some_calls (embassy_laws.queue two))
channels-queue_example = channels-queue 4 mpsc_laws embassy_laws some_calls two two
