-- ===== src/Server/Range/Header.antt =====
-- `RangeExtractor::from_request_parts` of server/src/range.rs.
pub mod RoundTrip
use esp32_music_server.Prelude.{
  ℕ, zero, ◌≡◌, refl, Bool, true, false, Option, none, some, List, [], ◌∷◌, ◌++◌, Bytes, codes,
  if◌then◌else◌,
}
use esp32_music_server.Std.Decimal.{parse_usize}
use esp32_music_server.Std.Text.{strip_prefix, first_piece}
use esp32_music_server.Std.Utf8.{is_utf8}

abbrev pub bytes_unit : Bytes
bytes_unit = codes "bytes="

abbrev pub or_zero : Option ℕ → ℕ
or_zero none = 0
or_zero (some n) = n

-- `.and_then(|v| core::str::from_utf8(v.as_raw()).ok())`
abbrev utf8_text : Option Bytes → Option Bytes
utf8_text none = none
utf8_text (some v) = if is_utf8 v then some v else none

module _ (max : ℕ) where
  abbrev bytes_part_start : Option Bytes → ℕ
  bytes_part_start none = 0
  bytes_part_start (some part) = or_zero (parse_usize max (first_piece b'-' part))

  abbrev range_start : Option Bytes → ℕ
  range_start none = 0
  range_start (some range) = bytes_part_start (strip_prefix bytes_unit range)

  -- The start of the range, from the raw `Range` header; `max` is the largest `usize`.
  unfoldable pub from_request_parts : Option Bytes → ℕ
  from_request_parts header = range_start (utf8_text header)

examples :
    (from_request_parts 4294967295 (some (codes "bytes=500-999")) ≡ 500)
    × (from_request_parts 4294967295 (some (codes "items=5-")) ≡ 0)
    × (from_request_parts 4294967295 none ≡ 0)
unfolding from_request_parts is_utf8 strip_prefix first_piece parse_usize
examples = (refl, refl, refl)
