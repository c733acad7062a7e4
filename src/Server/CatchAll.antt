-- ===== src/Server/CatchAll.antt =====
-- `CatchAll` of server/src/lib.rs: the part of a request's path behind `/fs`.
pub mod Ends
use esp32_music_server.Prelude.{ℕ, zero, suc, Option, none, some, Bytes}
use esp32_music_server.Run.{Result, good, bad}

-- picoserve's `Path`, which is not part of the repository.
pub record PathOps (P : Type 0) : Type 0 where
  pub encoded : P → Bytes
  pub split_first_segment : P → Option (Bytes × P)

abbrev pub result_map_err : {E F A : Type 0} → (E → F) → Result E A → Result F A
result_map_err g (good a) = good a
result_map_err g (bad e) = bad (g e)

module _ {P : Type 0} (paths : PathOps P) where
  abbrev pub after_segment : (P → Option P) → P → Option (Bytes × P) → Option P
  after_segment again empty none = some empty
  after_segment again empty (some p) = again p.1

  -- `while let Some(p)`, on fuel: what is left behind the last segment.
  unfoldable pub skip_segments : ℕ → P → Option P
  skip_segments zero empty = none
  skip_segments (suc fuel) empty =
      after_segment (skip_segments fuel) empty (paths.split_first_segment empty)

  abbrev pub validated : {T U : Type 0} → T → (P → Result Bytes U) → Option P → Option (Result T U)
  validated current_path_parameters validate none = none
  validated current_path_parameters validate (some empty) =
      some (result_map_err (λ _. current_path_parameters) (validate empty))

  -- None where the fuel runs out.
  unfoldable pub parse_and_validate :
      {T U : Type 0} → ℕ → T → P → (Bytes → P → Result Bytes U) → Option (Result T U)
  unfolding skip_segments
  parse_and_validate fuel current_path_parameters path validate =
      let remaining = paths.encoded path in
      validated current_path_parameters (validate remaining) (skip_segments fuel path)
