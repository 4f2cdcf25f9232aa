-- ===== src/Schedule/Conditions/Duals.antt =====
-- application/src/server/schedule/conditions.rs: conditions that negate one another.
use ailes.Common.{not, ◌≡◌, refl, arith}
use ailes.Schedule.{ScheduleExecutionContext}
use ailes.Schedule.Conditions.{
  Floats, Server, and_all, or_any, negate, Conditions, end, also, evaluate, evaluate_and,
  evaluate_or,
}

-- The negations of conditions, one by one.
abbrev pub negations : {F : Type 0} → Conditions F → Conditions F
negations end = end
negations (also condition rest) = also (negate condition) (negations rest)

module _ {F : Type 0} (floats : Floats F) (server : Server F)
    (context : ScheduleExecutionContext) where
  evaluate_and-negations :
      (conditions : Conditions F)
      → evaluate_and floats server context (negations conditions)
        ≡ not (evaluate_or floats server context conditions)
  unfolding evaluate_and
  evaluate_and-negations end = refl
  evaluate_and-negations (also condition rest) = ground (arith, evaluate_and-negations rest)

  evaluate_or-negations :
      (conditions : Conditions F)
      → evaluate_or floats server context (negations conditions)
        ≡ not (evaluate_and floats server context conditions)
  unfolding evaluate_and
  evaluate_or-negations end = refl
  evaluate_or-negations (also condition rest) = ground (arith, evaluate_or-negations rest)

  -- "All hold" is that not one's negation holds, and "one holds" that not all negations hold.
  pub evaluate-negations :
      (conditions : Conditions F)
      → (evaluate floats server context (and_all (negations conditions))
          ≡ evaluate floats server context (negate (or_any conditions)))
        × (evaluate floats server context (or_any (negations conditions))
            ≡ evaluate floats server context (negate (and_all conditions)))
  unfolding evaluate
  evaluate-negations conditions =
      (evaluate_and-negations conditions, evaluate_or-negations conditions)
