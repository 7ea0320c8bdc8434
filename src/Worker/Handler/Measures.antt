-- ===== src/Worker/Handler/Measures.antt =====
-- What CloudWatch reads of a handled order.
use mathlib.Core.Option.{get_or}
use velocity_dispatch.Prelude.{ℕ, List, [], ◌∷◌, String, Option}
use velocity_dispatch.Float.{Float}
use velocity_dispatch.Core.Json.{Json, text, number, float}
use velocity_dispatch.Core.Codec.{Codec}
use velocity_dispatch.Worker.Matching.{
  AssignOutcome, assigned, already_handled, no_driver_available,
}
use velocity_dispatch.Worker.Metrics.Extract.{Metric}

module _ {F : Type 0} where
  abbrev pub outcome_name : AssignOutcome F → String
  outcome_name (assigned e) = "assigned"
  outcome_name already_handled = "already_handled"
  outcome_name no_driver_available = "no_driver_available"

  -- One match, and the time it took, by environment and outcome.
  abbrev pub measured : Option ℕ → String → String → F → List (Metric F)
  measured since_epoch environment outcome ms =
      let one : String → String → Json F → Metric F = λ name unit value. record {
        timestamp = number (get_or since_epoch 0);
        namespace = text "VelocityDispatch/Worker";
        name = text name;
        unit = text unit;
        value = value;
        dimensions = (text "Environment", text environment) ∷ (text "Outcome", text outcome) ∷ [];
      } in
      one "MatchCount" "Count" (number 1) ∷ one "TimeToMatchMs" "Milliseconds" (float ms) ∷ []
