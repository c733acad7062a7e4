-- ===== src/Server/Range/Header/RoundTrip.antt =====
-- What `RangeExtractor` reads of the headers that clients send.
use esp32_music_server.Prelude.{ℕ, suc, ◌≤◌, ◌<◌, ◌≡◌, ◌≢◌, refl, some, ◌∷◌, ◌++◌, Bytes, arith}
use esp32_music_server.Std.Decimal.{to_string}
use esp32_music_server.Std.Decimal.RoundTrip.{IsDigit, digits-IsDigit, parse_usize-to_string}
use esp32_music_server.Std.Text.{
  All, All-append, All-weaken, strip_prefix-append, first_piece-append,
}
use esp32_music_server.Std.Utf8.{is_utf8-ascii}
use esp32_music_server.Server.Range.Header.{bytes_unit, from_request_parts}

abbrev pub IsAscii : ℕ → Type 0
IsAscii c = c < 128

-- `bytes=START-REST`.
abbrev pub range_header : ℕ → Bytes → Bytes
range_header start rest = bytes_unit ++ (to_string start ++ b'-' ∷ rest)

to_string-IsDigit : (n : ℕ) → All IsDigit (to_string n)
unfolding to_string
to_string-IsDigit n = digits-IsDigit (suc n) n

range_header-IsAscii :
    (start : ℕ) (rest : Bytes) → All IsAscii rest → All IsAscii (range_header start rest)
range_header-IsAscii start rest h = All-append IsAscii bytes_unit _ (omega arith) (
    All-append IsAscii (to_string start) _
      (All-weaken IsDigit IsAscii _ (λ c d. omega arith) (to_string-IsDigit start))
      (omega arith, h))

no_dash : (n : ℕ) → All (λ c. c ≢ b'-') (to_string n)
no_dash n =
    All-weaken IsDigit (λ c. c ≢ b'-') (to_string n) (λ c d. omega arith) (to_string-IsDigit n)

-- A header `bytes=START-REST` gives `START`, for every `usize` and every ASCII text behind it.
pub from_request_parts-range_header :
    (max start : ℕ) (rest : Bytes)
    → start ≤ max
    → All IsAscii rest
    → from_request_parts max (some (range_header start rest)) ≡ start
unfolding from_request_parts
from_request_parts-range_header max start rest h ascii =
    rw (is_utf8-ascii (range_header start rest) (range_header-IsAscii start rest ascii)) (
      rw (strip_prefix-append bytes_unit (to_string start ++ b'-' ∷ rest)) (
        rw (first_piece-append b'-' (to_string start) rest (no_dash start))
          (rw (parse_usize-to_string max start h) refl)))
