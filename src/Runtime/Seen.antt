-- ===== src/Runtime/Seen.antt =====
-- Runs of a component, seen through a view of its state.
use esp32_music_server.Prelude.{◌≡◌, refl, ap, ◌∙◌, List, ◌∷◌}
use esp32_music_server.Run.{Out, ok, err, panic, hang, Act, pure, and_then}

-- A run, seen from outside.
abbrev pub seen : {S U A : Type 0} → (S → U) → Out ⊥ S A → Out ⊥ U A
seen view (ok a s) = ok a (view s)
seen view (err e s) = absurd e
seen view (panic s) = panic (view s)
seen view (hang s) = hang (view s)

pub seen-and_then :
    {S U A B : Type 0} (view : S → U) (r : Out ⊥ S A) (f : A → Act ⊥ S B) (g : A → Act ⊥ U B)
    → ((a : A) (s : S) → seen view (f a s) ≡ g a (view s))
    → seen view (and_then r f) ≡ and_then (seen view r) g
seen-and_then view (ok a s) f g k = k a s
seen-and_then view (err e s) f g k = absurd e
seen-and_then view (panic s) f g k = refl
seen-and_then view (hang s) f g k = refl

-- The value that was taken goes before those of the rest.
pub seen-cons :
    {S U T : Type 0} (view : S → U) (v : T) (r : Out ⊥ S (List T)) {r' : Out ⊥ U (List T)}
    → seen view r ≡ r'
    → seen view (and_then r (λ vs. pure (v ∷ vs))) ≡ and_then r' (λ vs. pure (v ∷ vs))
seen-cons view v r e =
    seen-and_then view r (λ vs. pure (v ∷ vs)) (λ vs. pure (v ∷ vs)) (λ vs s. refl)
    ∙ ap (λ o. and_then o (λ vs. pure (v ∷ vs))) e
