-- ===== src/Worker/Eventbridge.antt =====
-- services/dispatch-worker/src/eventbridge.rs: one `put_events` for an assignment. What the bus
-- accepts is recorded in a log.
use velocity_dispatch.Prelude.{
  ℕ, List, [], ◌∷◌, ◌++◌, String, Option, none, some, Result, ok, err, Outcome, attempt, and_then,
  ltb, if◌then◌else◌,
}
use velocity_dispatch.Core.Events.{DispatchAssigned, detail_type, source}
use velocity_dispatch.Core.Codec.{Codec}
use velocity_dispatch.Worker.Matching.{WorkerError, bad_json, aws, rejected}

pub record PutEventsRequestEntry : Type 0 where
  pub source : String
  pub detail_type : String
  pub detail : String
  pub event_bus_name : String

pub record DispatchEventPublisher : Type 0 where
  pub bus_name : String

-- How the request ends, and how many of its entries the answer says failed.
pub record PutIo : Type 0 where
  pub put : Outcome
  pub failed_entry_count : ℕ

abbrev pub entry_of : DispatchEventPublisher → String → PutEventsRequestEntry
entry_of self detail = record {
  source = source;
  detail_type = detail_type;
  detail = detail;
  event_bus_name = self.bus_name;
}

-- The bus takes the entry unless the answer counts it as failed.
abbrev pub put_events :
    ℕ → PutEventsRequestEntry → List PutEventsRequestEntry → List PutEventsRequestEntry
put_events failed_count entry bus = if ltb 0 failed_count then bus else bus ++ entry ∷ []

module _ {F : Type 0} (codec : Codec F) where
  abbrev pub send :
      PutIo
      → PutEventsRequestEntry
      → List PutEventsRequestEntry
      → Result (WorkerError F) ℕ × List PutEventsRequestEntry
  send io entry bus =
      attempt io.put aws bus (ok io.failed_entry_count, put_events io.failed_entry_count entry bus)

  -- `bail!` on a failed entry.
  abbrev pub check_failed :
      ℕ
      → List PutEventsRequestEntry
      → Result (WorkerError F) (Unit {0}) × List PutEventsRequestEntry
  check_failed n bus = (if ltb 0 n then err (rejected n) else ok tt, bus)

  abbrev pub publish_detail :
      PutIo
      → DispatchEventPublisher
      → Option String
      → List PutEventsRequestEntry
      → Result (WorkerError F) (Unit {0}) × List PutEventsRequestEntry
  publish_detail io self none bus = (err bad_json, bus)
  publish_detail io self (some detail) bus =
      and_then (send io (entry_of self detail) bus) check_failed

  unfoldable pub publish :
      PutIo
      → DispatchEventPublisher
      → DispatchAssigned F
      → List PutEventsRequestEntry
      → Result (WorkerError F) (Unit {0}) × List PutEventsRequestEntry
  publish io self event bus = publish_detail io self (codec.assigned_to_string event) bus
