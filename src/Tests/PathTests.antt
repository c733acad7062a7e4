-- ===== src/Tests/PathTests.antt =====
-- The rest of a path, where a segment is a slash and the text up to the next one.
use esp32_music_server.Prelude.{
  ℕ, ◌≤◌, ◌≡◌, ap, Option, none, some, [], ◌∷◌, Bytes, codes, length, ◌==◌, if◌then◌else◌, arith,
}
use esp32_music_server.Run.{Result, good, bad}
use esp32_music_server.Server.CatchAll.{PathOps, result_map_err, parse_and_validate}
use esp32_music_server.Server.CatchAll.Ends.{Shortens, parse_and_validate-ends}

abbrev before_slash : Bytes → Bytes
before_slash [] = []
before_slash (c ∷ cs) = let rest = before_slash cs in if c == 47 then [] else c ∷ rest

abbrev from_slash : Bytes → Bytes
from_slash [] = []
from_slash (c ∷ cs) = let rest = from_slash cs in if c == 47 then c ∷ cs else rest

abbrev split : Bytes → Option (Bytes × Bytes)
split [] = none
split (c ∷ cs) = some (before_slash cs, from_slash cs)

abbrev text_paths : PathOps Bytes
text_paths = record { encoded = λ p. p; split_first_segment = split }

length-from_slash : (cs : Bytes) → length (from_slash cs) ≤ length cs
length-from_slash [] = omega arith
length-from_slash (c ∷ cs) = ground (arith, length-from_slash cs)

rest_of : Option (Bytes × Bytes) → Bytes
rest_of none = []
rest_of (some (s, q)) = q

split-Shortens : Shortens text_paths
unfolding rest_of
split-Shortens [] q segment h = absurd (ground (arith, h))
split-Shortens (c ∷ cs) q segment h =
    omega (arith, length-from_slash cs, ap (λ o. length (rest_of o)) h)

abbrev refuse : Bytes → Bytes → Result Bytes ℕ
refuse remaining [] = good (length remaining)
refuse remaining (c ∷ cs) = bad remaining

parse_and_validate-ends_example :
    (q : Bytes) × (split q ≡ none)
    × (parse_and_validate text_paths {T = ℕ} 20 7 (codes "/music/8.mp3") refuse
        ≡ some (result_map_err (λ _. 7) (refuse (codes "/music/8.mp3") q)))
parse_and_validate-ends_example =
    parse_and_validate-ends text_paths split-Shortens {T = ℕ} 20 7 (codes "/music/8.mp3") refuse
      (omega arith)
