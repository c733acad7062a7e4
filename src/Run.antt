-- ===== src/Run.antt =====
-- How the code runs: an action takes the state of what it works on, and returns, fails with an
-- error, panics, or waits for ever.
pub mod Settles
use esp32_music_server.Prelude.{◌≡◌, refl, Bool, true, false, if◌then◌else◌}

pub data Out (E S A : Type 0) : Type 0 where
  ok : A → S → Out E S A
  err : E → S → Out E S A
  panic : S → Out E S A
  hang : S → Out E S A

abbrev pub Act : Type 0 → Type 0 → Type 0 → Type 0
Act E S A = S → Out E S A

pub data Result (E A : Type 0) : Type 0 where
  good : A → Result E A
  bad : E → Result E A

abbrev pub pure : {E S A : Type 0} → A → Act E S A
pure a s = ok a s

abbrev pub fail : {E S A : Type 0} → E → Act E S A
fail e s = err e s

abbrev pub and_then : {E S A B : Type 0} → Out E S A → (A → Act E S B) → Out E S B
and_then (ok a s) f = f a s
and_then (err e s) f = err e s
and_then (panic s) f = panic s
and_then (hang s) f = hang s

infixl 5 ◌>>=◌ ◌>>◌
abbrev pub ◌>>=◌ : {E S A B : Type 0} → Act E S A → (A → Act E S B) → Act E S B
◌>>=◌ m f s = and_then (m s) f

abbrev pub ◌>>◌ : {E S A B : Type 0} → Act E S A → Act E S B → Act E S B
m >> k = m >>= λ _. k

-- `map_err`, and the conversion that `?` makes.
abbrev pub out_map_err : {E F S A : Type 0} → (E → F) → Out E S A → Out F S A
out_map_err g (ok a s) = ok a s
out_map_err g (err e s) = err (g e) s
out_map_err g (panic s) = panic s
out_map_err g (hang s) = hang s

abbrev pub map_err : {E F S A : Type 0} → (E → F) → Act E S A → Act F S A
map_err g m s = out_map_err g (m s)

-- The result as a value: what a `match` on a call reads.
abbrev pub out_attempt : {E F S A : Type 0} → Out E S A → Out F S (Result E A)
out_attempt (ok a s) = ok (good a) s
out_attempt (err e s) = ok (bad e) s
out_attempt (panic s) = panic s
out_attempt (hang s) = hang s

abbrev pub attempt : {E F S A : Type 0} → Act E S A → Act F S (Result E A)
attempt m s = out_attempt (m s)

-- The run of a part, seen as a run of the whole.
abbrev pub map_state : {E S T A : Type 0} → (S → T) → Out E S A → Out E T A
map_state g (ok a s) = ok a (g s)
map_state g (err e s) = err e (g s)
map_state g (panic s) = panic (g s)
map_state g (hang s) = hang (g s)

-- `unwrap` of a result.
abbrev pub unwrap : {E F S A : Type 0} → Out E S A → Out F S A
unwrap (ok a s) = ok a s
unwrap (err e s) = panic s
unwrap (panic s) = panic s
unwrap (hang s) = hang s

-- `let _ = call`: the result is dropped.
abbrev pub ignore : {E F S A : Type 0} → Act E S A → Act F S (Unit {0})
ignore m = attempt m >> pure tt

-- `finally`: the destructor runs however the body is left, but for a panic, which aborts.
abbrev pub out_then_drop : {E S A : Type 0} → Out E S A → Act E S (Unit {0}) → Out E S A
out_then_drop (ok a s) close = and_then (close s) (λ _. pure a)
out_then_drop (err e s) close = and_then (close s) (λ _. fail e)
out_then_drop (panic s) close = panic s
out_then_drop (hang s) close = hang s

abbrev pub then_drop : {E S A : Type 0} → Act E S A → Act E S (Unit {0}) → Act E S A
then_drop m close s = out_then_drop (m s) close

-- A destructor that runs only where the body is left by an error: on success the value moves on.
abbrev pub out_on_error : {E S A : Type 0} → Out E S A → Act E S (Unit {0}) → Out E S A
out_on_error (ok a s) close = ok a s
out_on_error (err e s) close = and_then (close s) (λ _. fail e)
out_on_error (panic s) close = panic s
out_on_error (hang s) close = hang s

abbrev pub on_error : {E S A : Type 0} → Act E S A → Act E S (Unit {0}) → Act E S A
on_error m close s = out_on_error (m s) close

-- The run ends without a panic, and its end satisfies the first predicate if it returns and the
-- second if it fails.
pub data Ensures {E S A : Type 0} (P : A → S → Type 0) (Q : E → S → Type 0)
    : Out E S A → Type 0 where
  returns : {a : A} {s : S} → P a s → Ensures P Q (ok a s)
  fails : {e : E} {s : S} → Q e s → Ensures P Q (err e s)

module _ {E S A : Type 0} {P : A → S → Type 0} {Q : E → S → Type 0} where
  after_return :
      (a : A) {c : Out E S (Unit {0})}
      → Ensures (λ _ t. P a t) (λ _ _. ⊥) c
      → Ensures P Q (and_then c (λ _. pure a))
  after_return a (returns g) = returns g
  after_return a (fails g) = absurd g

  after_error :
      (e : E) {c : Out E S (Unit {0})}
      → Ensures (λ _ t. Q e t) (λ _ _. ⊥) c
      → Ensures P Q (and_then c (λ _. fail e))
  after_error e (returns g) = fails g
  after_error e (fails g) = absurd g

module _ {E S A : Type 0} {P : A → S → Type 0} {Q : E → S → Type 0} where
  pub Ensures-bind :
      {B : Type 0} {R : B → S → Type 0} {r : Out E S A} (f : A → Act E S B)
      → Ensures P Q r
      → ((a : A) (s : S) → P a s → Ensures R Q (f a s))
      → Ensures R Q (and_then r f)
  Ensures-bind f (returns h) k = k _ _ h
  Ensures-bind f (fails h) k = fails h

  pub Ensures-weaken :
      {P' : A → S → Type 0} {Q' : E → S → Type 0} {r : Out E S A}
      → Ensures P Q r
      → ((a : A) (s : S) → P a s → P' a s)
      → ((e : E) (s : S) → Q e s → Q' e s)
      → Ensures P' Q' r
  Ensures-weaken (returns h) f g = returns (f _ _ h)
  Ensures-weaken (fails h) f g = fails (g _ _ h)

  pub Ensures-map_err :
      {F : Type 0} {Q' : F → S → Type 0} {r : Out E S A} (g : E → F)
      → Ensures P Q r
      → ((e : E) (s : S) → Q e s → Q' (g e) s)
      → Ensures P Q' (out_map_err g r)
  Ensures-map_err g (returns h) k = returns h
  Ensures-map_err g (fails h) k = fails (k _ _ h)

  -- A `match` on the result goes on from either end.
  pub Ensures-attempt :
      {F B : Type 0} {R : B → S → Type 0} {Q' : F → S → Type 0} {r : Out E S A}
      (f : Result E A → Act F S B)
      → Ensures P Q r
      → ((a : A) (s : S) → P a s → Ensures R Q' (f (good a) s))
      → ((e : E) (s : S) → Q e s → Ensures R Q' (f (bad e) s))
      → Ensures R Q' (and_then (out_attempt r) f)
  Ensures-attempt f (returns h) k l = k _ _ h
  Ensures-attempt f (fails h) k l = l _ _ h

  -- A destructor that never fails runs behind either end.
  pub Ensures-then_drop :
      {P' : A → S → Type 0} {Q' : E → S → Type 0} {r : Out E S A} (close : Act E S (Unit {0}))
      → Ensures P Q r
      → ((a : A) (s : S) → P a s → Ensures (λ _ t. P' a t) (λ _ _. ⊥) (close s))
      → ((e : E) (s : S) → Q e s → Ensures (λ _ t. Q' e t) (λ _ _. ⊥) (close s))
      → Ensures P' Q' (out_then_drop r close)
  Ensures-then_drop close (returns {a} {s} h) k l = after_return a (k a s h)
  Ensures-then_drop close (fails {e} {s} h) k l = after_error e (l e s h)

pub Ensures-on_error :
    {E S A : Type 0} {P : A → S → Type 0} {Q Q' : E → S → Type 0} {r : Out E S A}
    (close : Act E S (Unit {0}))
    → Ensures P Q r
    → ((e : E) (s : S) → Q e s → Ensures (λ _ t. Q' e t) (λ _ _. ⊥) (close s))
    → Ensures P Q' (out_on_error r close)
Ensures-on_error close (returns h) l = returns h
Ensures-on_error close (fails {e} {s} h) l = after_error e (l e s h)

-- An action that ends with the result of a call as a value.
pub Ensures-attempt_last :
    {E F S A : Type 0} {P : A → S → Type 0} {Q : E → S → Type 0} {R : Result E A → S → Type 0}
    {Q' : F → S → Type 0} {r : Out E S A}
    → Ensures P Q r
    → ((a : A) (s : S) → P a s → R (good a) s)
    → ((e : E) (s : S) → Q e s → R (bad e) s)
    → Ensures R Q' (out_attempt r)
Ensures-attempt_last (returns h) k l = returns (k _ _ h)
Ensures-attempt_last (fails h) k l = returns (l _ _ h)

-- The first action never fails.
pub Ensures-bind_sure :
    {E S A B : Type 0} {P : A → S → Type 0} {R : B → S → Type 0} {Q : E → S → Type 0}
    {r : Out E S A} (f : A → Act E S B)
    → Ensures P (λ _ _. ⊥) r
    → ((a : A) (s : S) → P a s → Ensures R Q (f a s))
    → Ensures R Q (and_then r f)
Ensures-bind_sure f (returns h) k = k _ _ h
Ensures-bind_sure f (fails h) k = absurd h

pub Ensures-if :
    {E S A : Type 0} {P : A → S → Type 0} {Q : E → S → Type 0} {s : S} (b : Bool) (m n : Act E S A)
    → Ensures P Q (m s)
    → Ensures P Q (n s)
    → Ensures P Q ((if b then m else n) s)
Ensures-if true m n h k = h
Ensures-if false m n h k = k

-- The same where the branches need to know the test.
pub Ensures-if_known :
    {E S A : Type 0} {P : A → S → Type 0} {Q : E → S → Type 0} {s : S} (b : Bool) (m n : Act E S A)
    → (b ≡ true → Ensures P Q (m s))
    → (b ≡ false → Ensures P Q (n s))
    → Ensures P Q ((if b then m else n) s)
Ensures-if_known true m n h k = h refl
Ensures-if_known false m n h k = k refl

-- The end of the run, beside what holds of it.
pub Ensures-known :
    {E S A : Type 0} {P : A → S → Type 0} {Q : E → S → Type 0} {r : Out E S A}
    → Ensures P Q r
    → Ensures (λ a s. P a s × (r ≡ ok a s)) (λ e s. Q e s × (r ≡ err e s)) r
Ensures-known (returns h) = returns (h, refl)
Ensures-known (fails h) = fails (h, refl)

both_return :
    {E S A : Type 0} {P P' : A → S → Type 0} {Q Q' : E → S → Type 0} {a : A} {s : S}
    → P a s
    → Ensures P' Q' (ok a s)
    → Ensures (λ a s. P a s × P' a s) (λ e s. Q e s × Q' e s) (ok a s)
both_return h (returns g) = returns (h, g)

both_fail :
    {E S A : Type 0} {P P' : A → S → Type 0} {Q Q' : E → S → Type 0} {e : E} {s : S}
    → Q e s
    → Ensures P' Q' (err e s)
    → Ensures (λ a s. P a s × P' a s) (λ e s. Q e s × Q' e s) (err e s)
both_fail h (fails g) = fails (h, g)

-- Two statements about one run.
pub both :
    {E S A : Type 0} {P P' : A → S → Type 0} {Q Q' : E → S → Type 0} {r : Out E S A}
    → Ensures P Q r
    → Ensures P' Q' r
    → Ensures (λ a s. P a s × P' a s) (λ e s. Q e s × Q' e s) r
both (returns h) g = both_return h g
both (fails h) g = both_fail h g
