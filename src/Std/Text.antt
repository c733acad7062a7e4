-- ===== src/Std/Text.antt =====
-- `strip_prefix` and the first piece of `split`.
use esp32_music_server.Prelude.{
  ℕ, ◌≡◌, ◌≢◌, refl, Option, none, some, [], ◌∷◌, ◌++◌, Bytes, ◌==◌, if◌then◌else◌, arith,
}

unfoldable pub strip_prefix : Bytes → Bytes → Option Bytes
strip_prefix [] s = some s
strip_prefix (p ∷ ps) [] = none
strip_prefix (p ∷ ps) (c ∷ s) = if c == p then strip_prefix ps s else none

-- `s.split(sep).next()`: there always is a first piece.
unfoldable pub first_piece : ℕ → Bytes → Bytes
first_piece sep [] = []
first_piece sep (c ∷ s) = if c == sep then [] else c ∷ first_piece sep s

-- Every element satisfies the predicate.
abbrev pub All : (ℕ → Type 0) → Bytes → Type 0
All P [] = Unit
All P (c ∷ s) = P c × All P s

pub All-append : (P : ℕ → Type 0) (xs ys : Bytes) → All P xs → All P ys → All P (xs ++ ys)
All-append P [] ys hx hy = hy
All-append P (x ∷ xs) ys (px, hx) hy = (px, All-append P xs ys hx hy)

pub All-weaken : (P Q : ℕ → Type 0) (xs : Bytes) → ((c : ℕ) → P c → Q c) → All P xs → All Q xs
All-weaken P Q [] f h = tt
All-weaken P Q (x ∷ xs) f (px, hx) = (f x px, All-weaken P Q xs f hx)

pub strip_prefix-append : (p s : Bytes) → strip_prefix p (p ++ s) ≡ some s
unfolding strip_prefix
strip_prefix-append [] s = refl
strip_prefix-append (c ∷ p) s = ground (arith, strip_prefix-append p s)

pub first_piece-append :
    (sep : ℕ) (p s : Bytes) → All (λ c. c ≢ sep) p → first_piece sep (p ++ sep ∷ s) ≡ p
unfolding first_piece
first_piece-append sep [] s h = ground arith
first_piece-append sep (c ∷ p) s (hc, hp) = ground (arith, first_piece-append sep p s hp)
