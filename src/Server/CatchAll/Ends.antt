-- ===== src/Server/CatchAll/Ends.antt =====
-- The loop over the segments ends.
use esp32_music_server.Prelude.{
  ℕ, zero, suc, ◌<◌, ◌≡◌, refl, none, some, Option-cases, inl, inr, Bytes, length, arith,
}
use esp32_music_server.Run.{Result}
use esp32_music_server.Server.CatchAll.{PathOps, result_map_err, skip_segments, parse_and_validate}

-- What the code relies on: behind a segment the path is shorter.
abbrev pub Shortens : {P : Type 0} → PathOps P → Type 0
Shortens {P} paths =
    (p q : P) (segment : Bytes)
    → paths.split_first_segment p ≡ some (segment, q)
    → length (paths.encoded q) < length (paths.encoded p)

module _ {P : Type 0} (paths : PathOps P) (shortens : Shortens paths) where
  skip_segments-ends :
      (fuel : ℕ) (p : P)
      → length (paths.encoded p) < fuel
      → (q : P) × (skip_segments paths fuel p ≡ some q) × (paths.split_first_segment q ≡ none)
  unfolding skip_segments
  skip_segments-ends zero p h = absurd (omega arith)
  skip_segments-ends (suc fuel) p h = elim (Option-cases (paths.split_first_segment p)) [
    | inl last ↦ (p, rw last refl, last)
    | inr ((segment, q), more) ↦
        let (r, run, over) =
          skip_segments-ends fuel q (omega (arith, shortens p q segment more, h)) in
        (r, rw more run, over)
  ]

  -- The loop over the segments of a path ends, whatever the path, if what is left is shorter behind
  -- each: the validation then gets the whole text of the path, and a path that has no segment left,
  -- and the result is its own, or the parameters that were there where it refuses. The fuel is more
  -- than the characters of the path.
  pub parse_and_validate-ends :
      {T U : Type 0} (fuel : ℕ) (params : T) (p : P) (validate : Bytes → P → Result Bytes U)
      → length (paths.encoded p) < fuel
      → (q : P) × (paths.split_first_segment q ≡ none)
        × (parse_and_validate paths fuel params p validate
            ≡ some (result_map_err (λ _. params) (validate (paths.encoded p) q)))
  unfolding parse_and_validate
  parse_and_validate-ends fuel params p validate h =
      let (q, run, over) = skip_segments-ends fuel p h in (q, over, rw run refl)
