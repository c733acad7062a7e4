-- ===== src/Device/System/Sound.antt =====
-- What holds of the device at work with one task: no call waits for a signal without a reason to.
use mathlib.Core.Path.{subst}
use esp32_music_server.Prelude.{
  ℕ, zero, suc, ◌≡◌, refl, sym, ap, Bool, true, false, ◌||◌, List, [], ◌∷◌, ◌++◌, length, arith,
}
use esp32_music_server.Run.{Act, Out, ok, Ensures, returns}
use esp32_music_server.Device.Events.{Event, DeviceState}
use esp32_music_server.Device.Routes.{
  SignalName, Op, send, reset, wait, Request, home, config, set_config, write_to_flash, status,
  get_flash_data, print_alloc, handler,
}
use esp32_music_server.Device.System.{
  System, value, Work, sends, resets, takes, handles, Step, works, arrives, stops,
}
use esp32_music_server.Steps.{Reach, here, next}
use esp32_music_server.Device.System.Bounds.{IsBounded, Work-IsBounded}
use esp32_music_server.Device.System.Serves.{has, asks, is_reset, Serves}

-- Every wait comes behind the request for its signal, and no call asks for a restart; the predicate
-- says which signals have just been asked for.
unfoldable pub Sound : (SignalName → Bool) → List Op → Type 0
Sound p [] = Unit {0}
Sound p (send e ∷ ops) = (is_reset e ≡ false) × Sound (λ g. asks g e) ops
Sound p (reset g ∷ ops) = Sound (λ _. false) ops
Sound p (wait g ∷ ops) = (p g ≡ true) × Sound (λ _. false) ops

pub handler-Sound : (r : Request) (p : SignalName → Bool) → Sound p (handler r)
unfolding Sound handler
handler-Sound home p = tt
handler-Sound config p = tt
handler-Sound (set_config c) p = (refl, (refl, tt))
handler-Sound (write_to_flash c) p = (refl, tt)
handler-Sound status p = (refl, (refl, tt))
handler-Sound get_flash_data p = (refl, (refl, tt))
handler-Sound print_alloc p = (refl, (refl, tt))

-- Is there an event that asks for the signal, and is there a restart?
abbrev pub asked : SignalName → List Event → Bool
asked g [] = false
asked g (e ∷ es) = asks g e || asked g es

abbrev pub has_reset : List Event → Bool
has_reset [] = false
has_reset (e ∷ es) = is_reset e || has_reset es

asked-append :
    (g : SignalName) (es : List Event) (e : Event) → asks g e ≡ true → asked g (es ++ e ∷ []) ≡ true
asked-append g [] e h = ground (arith, h)
asked-append g (x ∷ es) e h = ground (arith, asked-append g es e h)

has_reset-append :
    (es : List Event) (e : Event)
    → has_reset es ≡ false
    → is_reset e ≡ false
    → has_reset (es ++ e ∷ []) ≡ false
has_reset-append [] e h k = ground (arith, k)
has_reset-append (x ∷ es) e h k = ground (arith, h, has_reset-append es e, k)

abbrev pub Backed : {C F : Type 0} → (SignalName → Bool) → List Event → DeviceState C F → Type 0
Backed p es d = (g : SignalName) → p g ≡ true → has (value g d) || asked g es ≡ true

or_behind : (a b c d : Bool) → a || (b || c) ≡ true → (a || b ≡ true → d ≡ true) → d || c ≡ true
or_behind a b c true h k = refl
or_behind a b true false h k = refl
or_behind a b false false h k = k (ground (arith, h))

pub record IsSafe {C F : Type 0} (s : System C F) : Type 0 where
  pub pending : SignalName → Bool
  pub sound : Sound pending (s.tasks 0).ops
  pub backed : Backed pending s.events s.device
  pub no_reset : has_reset s.events ≡ false
  pub bounded : IsBounded s

-- What the system needs of its handler.
abbrev pub Serving : {C F : Type 0} → (Event → Act ⊥ (DeviceState C F) (Unit {0})) → Type 0
Serving {C} {F} handle =
    (e : Event) (s : DeviceState C F)
    → is_reset e ≡ false
    → Ensures (λ _ d. Serves e s d) (λ _ _. ⊥) (handle e s)

returned-Serves :
    {C F : Type 0} {e : Event} {s d : DeviceState C F}
    → Ensures {E = ⊥} (λ _ d. Serves e s d) (λ _ _. ⊥) (ok tt d)
    → Serves e s d
returned-Serves (returns h) = h

served :
    {C F : Type 0} {e : Event} {s d : DeviceState C F} {r : Out ⊥ (DeviceState C F) (Unit {0})}
    → Ensures (λ _ d. Serves e s d) (λ _ _. ⊥) r
    → r ≡ ok tt d
    → Serves e s d
served {e = e} {s} h eq =
    returned-Serves (subst (λ r. Ensures (λ _ d. Serves e s d) (λ _ _. ⊥) r) eq h)

module _ {C F : Type 0} {handle : Event → Act ⊥ (DeviceState C F) (Unit {0})}
    (serving : Serving handle) where
  pub Work-IsSafe : {s t : System C F} → Work handle 1 s t → IsSafe s → IsSafe t
  unfolding Sound
  Work-IsSafe (sends (suc i) e ops h front room e') safe = absurd (omega arith)
  Work-IsSafe {s} (sends zero e ops h front room e') safe =
      let (calm, sound) = subst (Sound safe.pending) front safe.sound in
      record {
        pending = λ g. asks g e;
        sound = rw e' sound;
        backed = λ g k. rw e' (ground (arith, asked-append g s.events e k));
        no_reset = rw e' (has_reset-append s.events e safe.no_reset calm);
        bounded =
            Work-IsBounded {handle = handle} {s = s} (sends zero e ops h front room e')
              safe.bounded;
      }
  Work-IsSafe (resets (suc i) g ops h front e') safe = absurd (omega arith)
  Work-IsSafe {s} (resets zero g ops h front e') safe = record {
    pending = λ _. false;
    sound = rw e' (subst (Sound safe.pending) front safe.sound);
    backed = λ g k. absurd (ground (arith, k));
    no_reset = rw e' safe.no_reset;
    bounded = rw e' safe.bounded;
  }
  Work-IsSafe (takes (suc i) g ops a h front v e') safe = absurd (omega arith)
  Work-IsSafe {s} (takes zero g ops a h front v e') safe = record {
    pending = λ _. false;
    sound = rw e' (subst (Sound safe.pending) front safe.sound).1;
    backed = λ g k. absurd (ground (arith, k));
    no_reset = rw e' safe.no_reset;
    bounded = rw e' safe.bounded;
  }
  Work-IsSafe {s} (handles e es d front v e') safe =
      let calm : has_reset (e ∷ es) ≡ false =
        subst (λ x. has_reset x ≡ false) front safe.no_reset in
      record {
        pending = safe.pending;
        sound = rw e' safe.sound;
        backed = λ g k. rw e' (
            or_behind (has (value g s.device)) (asks g e) (asked g es) (has (value g d))
              (subst (λ x. has (value g s.device) || asked g x ≡ true) front (safe.backed g k))
              (served (serving e s.device (ground (arith, calm))) v g));
        no_reset = rw e' (ground (arith, calm));
        bounded = rw e' (omega (arith, ap (λ x. length x) front, safe.bounded));
      }

  pub Step-IsSafe : {s t : System C F} → Step handle 1 s t → IsSafe s → IsSafe t
  unfolding Sound
  Step-IsSafe (works w) safe = Work-IsSafe w safe
  Step-IsSafe (arrives (suc i) r h done e') safe = absurd (omega arith)
  Step-IsSafe (arrives zero r h done e') safe = record {
    pending = safe.pending;
    sound = rw e' (handler-Sound r safe.pending);
    backed = rw e' safe.backed;
    no_reset = rw e' safe.no_reset;
    bounded = rw e' safe.bounded;
  }
  Step-IsSafe (stops (suc i) h e') safe = absurd (omega arith)
  Step-IsSafe (stops zero h e') safe = record {
    pending = safe.pending;
    sound = rw e' tt;
    backed = rw e' safe.backed;
    no_reset = rw e' safe.no_reset;
    bounded = rw e' safe.bounded;
  }

  pub Reach-IsSafe : {s t : System C F} → IsSafe s → Reach (Step handle 1) s t → IsSafe t
  Reach-IsSafe safe here = safe
  Reach-IsSafe safe (next r st) = Step-IsSafe st (Reach-IsSafe safe r)

-- Nothing is in progress.
abbrev pub IsIdle : {C F : Type 0} → System C F → Type 0
IsIdle s = (s.events ≡ []) × ((i : ℕ) → (s.tasks i).ops ≡ [])

pub IsIdle-IsSafe : {C F : Type 0} {s : System C F} → IsIdle s → IsSafe s
unfolding Sound
IsIdle-IsSafe {s} (no_events, no_ops) = record {
  pending = λ _. false;
  sound = subst (Sound (λ _. false)) (sym (no_ops 0)) tt;
  backed = λ g k. absurd (ground (arith, k));
  no_reset = rw no_events refl;
  bounded = rw no_events (omega arith);
}
