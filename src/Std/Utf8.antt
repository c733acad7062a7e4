-- ===== src/Std/Utf8.antt =====
-- `core::str::from_utf8`: well-formed UTF-8, by the table of the Unicode standard.
use esp32_music_server.Prelude.{
  ℕ, ◌<◌, ◌≡◌, refl, Bool, true, false, ◌&&◌, Option, none, some, List, [], ◌∷◌, Bytes, ltb, leb,
  ◌==◌, if◌then◌else◌, arith,
}
use esp32_music_server.Std.Text.{All}

-- The bounds of a byte that has to follow.
abbrev Range : Type 0
Range = ℕ × ℕ

abbrev tail_byte : Range
tail_byte = (0x80, 0xbf)

-- What has to follow a first byte, and `none` where no character begins with it.
abbrev follow : ℕ → Option (List Range)
follow b =
    if ltb b 0x80
    then some []
    else if ltb b 0xc2
    then none
    else if ltb b 0xe0
    then some (tail_byte ∷ [])
    else if b == 0xe0
    then some ((0xa0, 0xbf) ∷ tail_byte ∷ [])
    else if b == 0xed
    then some ((0x80, 0x9f) ∷ tail_byte ∷ [])
    else if ltb b 0xf0
    then some (tail_byte ∷ tail_byte ∷ [])
    else if b == 0xf0
    then some ((0x90, 0xbf) ∷ tail_byte ∷ tail_byte ∷ [])
    else if ltb b 0xf4
    then some (tail_byte ∷ tail_byte ∷ tail_byte ∷ [])
    else if b == 0xf4
    then some ((0x80, 0x8f) ∷ tail_byte ∷ tail_byte ∷ [])
    else none

abbrev step : ℕ → List Range → Option (List Range)
step b [] = follow b
step b ((lo, hi) ∷ rs) = if leb lo b && leb b hi then some rs else none

abbrev steps : Option (List Range) → Bytes → Bool
steps none s = false
steps (some []) [] = true
steps (some (r ∷ rs)) [] = false
steps (some rs) (b ∷ s) = steps (step b rs) s

unfoldable pub is_utf8 : Bytes → Bool
is_utf8 s = steps (some []) s

-- ASCII text is well-formed.
pub is_utf8-ascii : (s : Bytes) → All (λ c. c < 128) s → is_utf8 s ≡ true
unfolding is_utf8
is_utf8-ascii [] h = refl
is_utf8-ascii (c ∷ s) (hc, hs) = ground (arith, is_utf8-ascii s hs)

-- An overlong form is refused.
overlong : is_utf8 (0xc0 ∷ 0x80 ∷ []) ≡ false
unfolding is_utf8
overlong = refl
