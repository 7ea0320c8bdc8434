-- ===== src/Core/Events.antt =====
-- crates/dispatch-core/src/events.rs: the messages between the services.
use velocity_dispatch.Prelude.{String}
use velocity_dispatch.Core.Model.{Uuid, DateTime, GeoPoint}

pub record OrderCreated (F : Type 0) : Type 0 where
  pub order_id : Uuid
  pub pickup : GeoPoint F
  pub dropoff : GeoPoint F
  pub created_at : DateTime

pub record DispatchAssigned (F : Type 0) : Type 0 where
  pub assignment_id : Uuid
  pub order_id : Uuid
  pub driver_id : Uuid
  pub distance_km : F
  pub assigned_at : DateTime

abbrev pub detail_type : String
detail_type = "DispatchAssigned"

abbrev pub source : String
source = "velocity.dispatch"

abbrev pub sqs_message_type : String
sqs_message_type = "OrderCreated"
