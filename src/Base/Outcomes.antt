-- ===== src/Base/Outcomes.antt =====
-- A result, the end of the simulation by a fatal report or an access outside of an array, or the
-- end of the model's fuel.
pub data Outcome (A : Type 0) : Type 0 where
  done : A → Outcome A
  fatal : Outcome A
  no_fuel : Outcome A
