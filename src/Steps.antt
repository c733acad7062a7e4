-- ===== src/Steps.antt =====
-- Runs of a step relation: what can be reached, and what comes to hold however the run goes on.
pub data Reach {S : Type 0} (step : S → S → Type 0) (s : S) : S → Type 0 where
  here : Reach step s s
  next : {t u : S} → Reach step s t → step t u → Reach step s u

pub data Inevitably {S : Type 0} (step : S → S → Type 0) (P : S → Type 0) : S → Type 0 where
  already : {s : S} → P s → Inevitably step P s
  soon :
      {s : S} (t : S) → step s t → ((u : S) → step s u → Inevitably step P u) → Inevitably step P s
