-- ===== src/Run/Settles.antt =====
-- Runs that may panic, and what holds where they do.
use esp32_music_server.Run.{
  Out, ok, err, panic, Act, Ensures, returns, fails, and_then, unwrap, out_then_drop,
}

-- The run does not wait for ever, and its end satisfies the first predicate if it returns, the second
-- if it fails and the third if it panics.
pub data Settles {E S A : Type 0} (P : A → S → Type 0) (Q : E → S → Type 0) (R : S → Type 0)
    : Out E S A → Type 0 where
  settles_ok : {a : A} {s : S} → P a s → Settles P Q R (ok a s)
  settles_err : {e : E} {s : S} → Q e s → Settles P Q R (err e s)
  settles_panic : {s : S} → R s → Settles P Q R (panic s)

module _ {E S A : Type 0} {P : A → S → Type 0} {Q : E → S → Type 0} {R : S → Type 0} where
  pub Settles-Ensures : {r : Out E S A} → Ensures P Q r → Settles P Q R r
  Settles-Ensures (returns h) = settles_ok h
  Settles-Ensures (fails h) = settles_err h

  -- `unwrap` panics where the call fails.
  pub Settles-unwrap :
      {F : Type 0} {Q' : F → S → Type 0} {r : Out F S A}
      → Ensures P Q' r
      → ((e : F) (s : S) → Q' e s → R s)
      → Settles P Q R (unwrap r)
  Settles-unwrap (returns h) k = settles_ok h
  Settles-unwrap (fails h) k = settles_panic (k _ _ h)

  pub Settles-bind :
      {B : Type 0} {P' : B → S → Type 0} {r : Out E S A} (f : A → Act E S B)
      → Settles P Q R r
      → ((a : A) (s : S) → P a s → Settles P' Q R (f a s))
      → Settles P' Q R (and_then r f)
  Settles-bind f (settles_ok h) k = k _ _ h
  Settles-bind f (settles_err h) k = settles_err h
  Settles-bind f (settles_panic h) k = settles_panic h

  Settles-drop_ok :
      (a : A) {c : Out E S (Unit {0})}
      → Ensures (λ _ t. P a t) (λ _ _. ⊥) c
      → Settles P Q R (and_then c (λ _. ok a))
  Settles-drop_ok a (returns g) = settles_ok g
  Settles-drop_ok a (fails g) = absurd g

  Settles-drop_err :
      (e : E) {c : Out E S (Unit {0})}
      → Ensures (λ _ t. Q e t) (λ _ _. ⊥) c
      → Settles P Q R (and_then c (λ _. err e))
  Settles-drop_err e (returns g) = settles_err g
  Settles-drop_err e (fails g) = absurd g

  -- A destructor that never fails runs behind either end, and not behind a panic.
  pub Settles-then_drop :
      {r : Out E S A} (close : Act E S (Unit {0}))
      → Settles P Q R r
      → ((a : A) (s : S) → P a s → Ensures (λ _ t. P a t) (λ _ _. ⊥) (close s))
      → ((e : E) (s : S) → Q e s → Ensures (λ _ t. Q e t) (λ _ _. ⊥) (close s))
      → Settles P Q R (out_then_drop r close)
  Settles-then_drop close (settles_ok {a} {s} h) k l = Settles-drop_ok a (k a s h)
  Settles-then_drop close (settles_err {e} {s} h) k l = Settles-drop_err e (l e s h)
  Settles-then_drop close (settles_panic h) k l = settles_panic h
