-- ===== src/System/Announce.antt =====
-- From the bus to the customer: EventBridge hands each event that its rule matches
-- (infra/terraform/eventbridge.tf) to the lambda, at least once and in any order. The runtime decodes
-- the event before it calls the handler: its decoder is a parameter.
pub mod Stored
pub mod Bus
pub mod Heard
pub mod Reaches
use velocity_dispatch.Prelude.{◌≡◌, Bool, true, ◌&&◌, String, Option, some, Memᴰ}
use velocity_dispatch.Float.{Float}
use velocity_dispatch.Core.Events.{DispatchAssigned}
use velocity_dispatch.Core.Codec.{Codec}
use velocity_dispatch.Store.{◌is◌}
use velocity_dispatch.Api.Sqs.{OrderEventPublisher}
use velocity_dispatch.Worker.Eventbridge.{PutEventsRequestEntry, DispatchEventPublisher}
use velocity_dispatch.Worker.Handler.{HandlerConfig}
use velocity_dispatch.Lambda.Defs.{Sinks, LambdaIo}
use velocity_dispatch.Start.Config.{Env}
use velocity_dispatch.Start.Main.{lambda_handler}
use velocity_dispatch.System.Run.{State, Step}

pub record EventDecoder (F : Type 0) : Type 0 where
  -- `serde_json::from_str::<DispatchAssigned>`, on the detail of an event
  pub assigned_from_str : String → Option (DispatchAssigned F)

-- The two events tell of the same assignment.
pub record SameAssignment {F : Type 0} (d e : DispatchAssigned F) : Type 0 where
  pub assignment_id : d.assignment_id ≡ e.assignment_id
  pub order_id : d.order_id ≡ e.order_id
  pub driver_id : d.driver_id ≡ e.driver_id

-- The text of an assignment decodes, with its three ids. The digits of the distance may differ.
pub record Decodes {F : Type 0} (codec : Codec F) (decoder : EventDecoder F) : Type 0 where
  pub round_trip :
      (e : DispatchAssigned F) (detail : String)
      → codec.assigned_to_string e ≡ some detail
      → (d : DispatchAssigned F) × (decoder.assigned_from_str detail ≡ some d) × SameAssignment d e

-- `event_pattern` of the rule
abbrev pub matches_rule : PutEventsRequestEntry → Bool
matches_rule entry = entry.source is "velocity.dispatch" && entry.detail_type is "DispatchAssigned"

pub record Feed (F : Type 0) : Type 0 where
  pub state : State F
  pub sinks : Sinks F

module _ {F : Type 0} ⦃f : Float F⦄ (codec : Codec F) (sqs : OrderEventPublisher)
    (publisher : DispatchEventPublisher) (cfg : HandlerConfig) (decoder : EventDecoder F) where
  pub data Tick (s t : Feed F) : Type 0 where
    serves :
        (u : State F)
        → Step codec sqs publisher cfg s.state u
        → t ≡ record s { state = u }
        → Tick s t
    announces :
        (env : Env) (io : LambdaIo) (entry : PutEventsRequestEntry) (e : DispatchAssigned F)
        → Memᴰ entry s.state.bus
        → matches_rule entry ≡ true
        → decoder.assigned_from_str entry.detail ≡ some e
        → t ≡ record s { sinks = (lambda_handler env io e s.sinks).1 }
        → Tick s t

  pub data Ticks (s : Feed F) : Feed F → Type 0 where
    unmoved : Ticks s s
    moved : {t u : Feed F} → Ticks s t → Tick t u → Ticks s u
