-- ===== src/Runtime/Channel.antt =====
-- `Channel` of file_manager/src/runtime/tokio_rt.rs and embassy_rt.rs. The lock around tokio's
-- receiver is free: it is held for one call.
pub mod Laws
pub mod Full
pub mod Fifo
use esp32_music_server.Prelude.{ℕ, Bool, ◌==◌, Option, none, some, List, [], ◌∷◌}
use esp32_music_server.Run.{unwrap, Out, ok, err, panic, hang, Act, pure, ◌>>=◌}

-- The interface of `tokio::sync::mpsc`, which is not part of the repository: the calls on the two
-- halves of a bounded channel of messages `T`. `send` fails with the message where the receiver is
-- gone, and `recv` gives nothing where all senders are.
pub record Mpsc (T C : Type 0) : Type 0 where
  pub send : T → Act T C (Unit {0})
  pub recv : Act ⊥ C (Option T)
  pub try_recv : Act (Unit {0}) C T
  pub is_empty : C → Bool
  pub len : C → ℕ
  pub capacity : C → ℕ

-- The interface of `embassy_sync::channel`.
pub record EmbassyChannel (T C : Type 0) : Type 0 where
  pub send : T → Act ⊥ C (Unit {0})
  pub receive : Act ⊥ C T
  pub try_receive : Act (Unit {0}) C T
  pub is_empty : C → Bool
  pub len : C → ℕ
  pub capacity : C → ℕ

-- The methods of the two `Channel`s.
pub record Channel (T C : Type 0) : Type 0 where
  pub send : T → Act ⊥ C (Unit {0})
  pub recv : Act ⊥ C T
  pub try_recv : Act ⊥ C (Option T)
  pub is_empty : Act ⊥ C Bool
  pub len : Act ⊥ C ℕ
  pub is_full : Act ⊥ C Bool

-- `unwrap` of an option.
abbrev pub unwrap_option : {S A : Type 0} → Option A → Act ⊥ S A
unwrap_option none = panic
unwrap_option (some a) = pure a

-- `.ok()`.
abbrev pub ok_of : {E S A : Type 0} → Out E S A → Out ⊥ S (Option A)
ok_of (ok a s) = ok (some a) s
ok_of (err e s) = ok none s
ok_of (panic s) = panic s
ok_of (hang s) = hang s

module _ {T C : Type 0} where
  unfoldable pub tokio_channel : Mpsc T C → Channel T C
  tokio_channel ch = record {
    send = λ msg s. unwrap (ch.send msg s);
    recv = ch.recv >>= unwrap_option;
    try_recv = λ s. ok_of (ch.try_recv s);
    is_empty = λ s. ok (ch.is_empty s) s;
    len = λ s. ok (ch.len s) s;
    is_full = λ s. ok (ch.len s == ch.capacity s) s;
  }

  unfoldable pub embassy_channel : EmbassyChannel T C → Channel T C
  embassy_channel ch = record {
    send = ch.send;
    recv = ch.receive;
    try_recv = λ s. ok_of (ch.try_receive s);
    is_empty = λ s. ok (ch.is_empty s) s;
    len = λ s. ok (ch.len s) s;
    is_full = λ s. ok (ch.len s == ch.capacity s) s;
  }

-- The halves of the tokio build.
pub record Sender (T C : Type 0) : Type 0 where
  pub send : T → Act ⊥ C (Unit {0})

pub record Receiver (T C : Type 0) : Type 0 where
  pub recv : Act ⊥ C T
  pub try_recv : Act ⊥ C (Option T)
  pub is_empty : Act ⊥ C Bool

module _ {T C : Type 0} where
  unfoldable pub tokio_sender : Mpsc T C → Sender T C
  tokio_sender ch = record { send = λ msg s. unwrap (ch.send msg s) }

  unfoldable pub tokio_receiver : Mpsc T C → Receiver T C
  tokio_receiver ch = record {
    recv = ch.recv >>= unwrap_option;
    try_recv = λ s. ok_of (ch.try_recv s);
    is_empty = λ s. ok (ch.is_empty s) s;
  }

-- The calls on a channel, and what they answer.
pub data ChannelCall (T : Type 0) : Type 0 where
  send : T → ChannelCall T
  recv try_recv is_empty len is_full : ChannelCall T

pub data ChannelAnswer (T : Type 0) : Type 0 where
  sent : ChannelAnswer T
  received : T → ChannelAnswer T
  tried : Option T → ChannelAnswer T
  told : Bool → ChannelAnswer T
  counted : ℕ → ChannelAnswer T

module _ {T C : Type 0} (ch : Channel T C) where
  unfoldable pub channel_call : ChannelCall T → Act ⊥ C (ChannelAnswer T)
  channel_call (ChannelCall.send msg) = ch.send msg >>= λ _. pure sent
  channel_call ChannelCall.recv = ch.recv >>= λ msg. pure (received msg)
  channel_call ChannelCall.try_recv = ch.try_recv >>= λ o. pure (tried o)
  channel_call ChannelCall.is_empty = ch.is_empty >>= λ b. pure (told b)
  channel_call ChannelCall.len = ch.len >>= λ n. pure (counted n)
  channel_call ChannelCall.is_full = ch.is_full >>= λ b. pure (told b)

  unfoldable pub channel_run : List (ChannelCall T) → Act ⊥ C (List (ChannelAnswer T))
  unfolding channel_call
  channel_run [] = pure []
  channel_run (call ∷ calls) = do
    answer ← channel_call call
    answers ← channel_run calls
    pure (answer ∷ answers)
