-- ===== src/FileManager/Paths.antt =====
-- The text functions of the Rust library that `resolve_path_iter` uses: `trim_matches('/')` and
-- `split("/")`.
use esp32_music_server.Prelude.{ℕ, List, [], ◌∷◌, Bytes, ◌==◌, if◌then◌else◌}

abbrev pub slash : ℕ
slash = b'/'

unfoldable pub trim_start : Bytes → Bytes
trim_start [] = []
trim_start (c ∷ s) = if c == slash then trim_start s else c ∷ s

-- Drops a text that is all slashes; otherwise keeps the character.
abbrev drop_slash : ℕ → Bytes → Bytes
drop_slash c [] = if c == slash then [] else c ∷ []
drop_slash c (d ∷ s) = c ∷ d ∷ s

unfoldable pub trim_end : Bytes → Bytes
trim_end [] = []
trim_end (c ∷ s) = drop_slash c (trim_end s)

unfoldable pub trim_matches : Bytes → Bytes
unfolding trim_start trim_end
trim_matches s = trim_end (trim_start s)

abbrev split_step : ℕ → List Bytes → List Bytes
split_step c [] = (c ∷ []) ∷ []
split_step c (w ∷ ws) = if c == slash then [] ∷ w ∷ ws else (c ∷ w) ∷ ws

-- The pieces between slashes: always one at least.
unfoldable pub split : Bytes → List Bytes
split [] = [] ∷ []
split (c ∷ s) = split_step c (split s)
