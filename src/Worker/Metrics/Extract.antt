-- ===== src/Worker/Metrics/Extract.antt =====
-- The Embedded Metric Format, as its documentation describes it: `_aws` names members of the line as
-- dimensions and as metrics, and a metric has the values of those members.
use velocity_dispatch.Prelude.{List, [], ◌∷◌, ◌++◌, String, if◌then◌else◌, str_eq}
use velocity_dispatch.Core.Json.{Json, text, array, object, Items, nil, cons, Members, end, member}

-- A metric that stands in a line.
pub record Metric (F : Type 0) : Type 0 where
  pub timestamp : Json F
  pub namespace : Json F
  pub name : Json F
  pub unit : Json F
  pub value : Json F
  -- each with its value
  pub dimensions : List (Json F × Json F)

module _ {F : Type 0} where
  -- The value of a member; an empty object where there is none.
  abbrev at : String → Members F → Json F
  at k end = object end
  at k (member j v rest) = if str_eq j k then v else at k rest

  abbrev named : Json F → Members F → Json F
  named (text k) line = at k line
  named j line = object end

  abbrev members : Json F → Members F
  members (object ms) = ms
  members j = end

  abbrev items : Json F → Items F
  items (array js) = js
  items j = nil

  abbrev dimensions_of : Items F → Members F → List (Json F × Json F)
  dimensions_of nil line = []
  dimensions_of (cons k ks) line = (k, named k line) ∷ dimensions_of ks line

  -- The metrics of one set of dimensions.
  abbrev metrics_of :
      Json F → Json F → List (Json F × Json F) → Items F → Members F → List (Metric F)
  metrics_of timestamp namespace dimensions nil line = []
  metrics_of timestamp namespace dimensions (cons m ms) line =
      record {
        timestamp = timestamp;
        namespace = namespace;
        name = at "Name" (members m);
        unit = at "Unit" (members m);
        value = named (at "Name" (members m)) line;
        dimensions = dimensions;
      }
      ∷ metrics_of timestamp namespace dimensions ms line

  abbrev each_set : Json F → Members F → Items F → Members F → List (Metric F)
  each_set timestamp directive nil line = []
  each_set timestamp directive (cons set sets) line =
      metrics_of timestamp (at "Namespace" directive) (dimensions_of (items set) line)
        (items (at "Metrics" directive)) line
      ++ each_set timestamp directive sets line

  abbrev each_directive : Json F → Items F → Members F → List (Metric F)
  each_directive timestamp nil line = []
  each_directive timestamp (cons d ds) line =
      each_set timestamp (members d) (items (at "Dimensions" (members d))) line
      ++ each_directive timestamp ds line

  -- The metrics that CloudWatch finds in a line.
  unfoldable pub extract : Members F → List (Metric F)
  extract line =
      let aws = members (at "_aws" line) in
      each_directive (at "Timestamp" aws) (items (at "CloudWatchMetrics" aws)) line
