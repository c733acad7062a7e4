-- ===== src/Std/Decimal.antt =====
-- `to_string` and `parse::<usize>` of the Rust library.
pub mod RoundTrip
use esp32_music_server.Prelude.{
  ℕ, zero, suc, ◌+◌, ◌-◌, ◌*◌, ◌/◌, ◌%◌, ◌≡◌, refl, Option, none, some, List, [], ◌∷◌, ◌++◌, Bytes,
  codes, ltb, leb, ◌==◌, ◌||◌, if◌then◌else◌,
}

-- The fuel is above the number, which is divided by ten in each round.
unfoldable pub digits : ℕ → ℕ → Bytes
digits zero n = []
digits (suc k) n =
    let front = digits k (n / 10) in
    if ltb n 10 then (b'0' + n) ∷ [] else front ++ (b'0' + n % 10) ∷ []

unfoldable pub to_string : ℕ → Bytes
unfolding digits
to_string n = digits (suc n) n

-- Overflow past the largest `usize` is an error, as are other characters than digits.
unfoldable pub scan : ℕ → Bytes → ℕ → Option ℕ
scan max [] n = some n
scan max (c ∷ s) n =
    let m = n * 10 + (c - b'0') in
    let rest = scan max s m in
    if ltb c b'0' || ltb b'9' c then none else if leb m max then rest else none

abbrev after_sign : ℕ → ℕ → Bytes → Option ℕ
after_sign max c [] = if c == b'+' then none else scan max (c ∷ []) 0
after_sign max c (d ∷ s) = if c == b'+' then scan max (d ∷ s) 0 else scan max (c ∷ d ∷ s) 0

-- One `+` may stand in front; there is one digit at least.
unfoldable pub parse_usize : ℕ → Bytes → Option ℕ
unfolding scan
parse_usize max [] = none
parse_usize max (c ∷ s) = after_sign max c s

parse_examples :
    (parse_usize 4294967295 (codes "4294967295") ≡ some 4294967295)
    × (parse_usize 4294967295 (codes "4294967296") ≡ none)
    × (parse_usize 4294967295 (codes "+07") ≡ some 7)
    × (parse_usize 4294967295 (codes "+") ≡ none)
    × (parse_usize 4294967295 [] ≡ none)
unfolding parse_usize
parse_examples = (refl, refl, refl, refl, refl)

to_string_example : to_string 16384 ≡ codes "16384"
unfolding to_string
to_string_example = refl
