-- ===== src/Worker/Metrics.antt =====
-- services/dispatch-worker/src/metrics.rs: the line that CloudWatch reads its metrics from.
pub mod Extract
use mathlib.Core.Option.{get_or}
use velocity_dispatch.Prelude.{ℕ, Option, String}
use velocity_dispatch.Core.Json.{
  Json, text, number, float, array, object, Items, nil, cons, Members, end, member,
}

abbrev pub namespace : String
namespace = "VelocityDispatch/Worker"

module _ {F : Type 0} where
  abbrev pub metric : String → String → Json F
  metric name unit = object (member "Name" (text name) (member "Unit" (text unit) end))

  -- `CloudWatchMetrics[0]`
  abbrev pub directive : Members F
  directive = member "Namespace" (text namespace) (
      member "Dimensions"
        (array (cons (array (cons (text "Environment") (cons (text "Outcome") nil))) nil))
        (member "Metrics"
          (array
            (cons (metric "MatchCount" "Count") (cons (metric "TimeToMatchMs" "Milliseconds") nil)))
          end))

  -- `now_ms` is 0 for a clock before the epoch.
  abbrev pub aws_member : Option ℕ → Json F
  aws_member since_epoch = object (
      member "Timestamp" (number (get_or since_epoch 0))
        (member "CloudWatchMetrics" (array (cons (object directive) nil)) end))

  -- The members of the line that `emit_match_outcome` prints.
  unfoldable pub payload : Option ℕ → String → String → F → Members F
  payload since_epoch environment outcome time_since_order_created_ms =
      member "_aws" (aws_member since_epoch) (
        member "Environment" (text environment) (
          member "Outcome" (text outcome) (
            member "MatchCount" (number 1)
              (member "TimeToMatchMs" (float time_since_order_created_ms) end))))
