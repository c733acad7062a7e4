-- ===== src/Runtime/Signal.antt =====
-- `Signal` of file_manager/src/runtime/tokio_rt.rs and embassy_rt.rs: a slot for one value, which a
-- waiting task takes.
pub mod Slot
use esp32_music_server.Prelude.{Bool, true, false, Option, none, some, List, [], ◌∷◌, if◌then◌else◌}
use esp32_music_server.Run.{Out, ok, err, panic, hang, Act, pure, ◌>>=◌, ◌>>◌}

-- The interface of `tokio::sync::Notify`, which is not part of the repository.
pub record Notify (P : Type 0) : Type 0 where
  pub notified : Act ⊥ P (Unit {0})
  pub notify_one : P → P

-- The interface of `embassy_sync::signal::Signal`.
pub record EmbassySignal (T P : Type 0) : Type 0 where
  pub wait : Act ⊥ P T
  pub signal : T → P → P
  pub reset : P → P
  pub signaled : P → Bool

-- The methods of the two `Signal`s, on the state `S`.
pub record Signal (T S : Type 0) : Type 0 where
  pub wait : Act ⊥ S T
  pub signal : T → Act ⊥ S (Unit {0})
  pub reset : Act ⊥ S (Unit {0})

-- `self.value.lock().await.take().unwrap()`
abbrev pub take_value : {T P : Type 0} → Act ⊥ (P × Option T) T
take_value (p, none) = panic (p, none)
take_value (p, some v) = ok v (p, none)

abbrev pub on_notify : {P T A : Type 0} → Option T → Out ⊥ P A → Out ⊥ (P × Option T) A
on_notify o (ok a p) = ok a (p, o)
on_notify o (err e p) = absurd e
on_notify o (panic p) = panic (p, o)
on_notify o (hang p) = hang (p, o)

-- Over tokio: a `Notify`, and the value behind a lock.
unfoldable pub tokio_signal : {T P : Type 0} → Notify P → Signal T (P × Option T)
tokio_signal notify = record {
  wait = (λ s. on_notify s.1 (notify.notified s.0)) >> take_value;
  signal = λ v s. ok tt (notify.notify_one s.0, some v);
  reset = λ s. ok tt (s.0, none);
}

unfoldable pub embassy_signal : {T P : Type 0} → EmbassySignal T P → Signal T P
embassy_signal sig = record {
  wait = sig.wait;
  signal = λ v s. ok tt (sig.signal v s);
  reset = λ s. ok tt (if sig.signaled s then sig.reset s else s);
}

pub data SignalEvent (T : Type 0) : Type 0 where
  signalled : T → SignalEvent T
  waited was_reset : SignalEvent T

-- A sequence of calls; the result has the values that the waits returned.
unfoldable pub signal_run : {T S : Type 0} → Signal T S → List (SignalEvent T) → Act ⊥ S (List T)
signal_run sig [] = pure []
signal_run sig (signalled v ∷ es) = sig.signal v >> signal_run sig es
signal_run sig (waited ∷ es) = do v ← sig.wait; vs ← signal_run sig es; pure (v ∷ vs)
signal_run sig (was_reset ∷ es) = sig.reset >> signal_run sig es
