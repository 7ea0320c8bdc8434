-- ===== src/Worker/Handler/Defs.antt =====
-- `handle_message` and `delete_message`, over the database and the logs of what the services of AWS
-- accepted.
use velocity_dispatch.Prelude.{
  ℕ, List, [], ◌∷◌, ◌++◌, String, Option, none, some, Result, ok, err, Outcome, attempt, and_then,
}
use velocity_dispatch.Prelude.Int.{◌-ℤ◌, quot, max_zero}
use velocity_dispatch.Float.{Float}
use velocity_dispatch.Core.Model.{DateTime}
use velocity_dispatch.Core.Events.{OrderCreated, DispatchAssigned}
use velocity_dispatch.Core.Codec.{Codec}
use velocity_dispatch.Core.Json.{Members}
use velocity_dispatch.Store.{Database}
use velocity_dispatch.Worker.Matching.{
  AssignOutcome, assigned, already_handled, no_driver_available, WorkerError, bad_json, aws,
  AssignIo, assign_order,
}
use velocity_dispatch.Worker.Metrics.{payload}
use velocity_dispatch.Worker.Eventbridge.{
  PutEventsRequestEntry, DispatchEventPublisher, PutIo, publish,
}

pub record Message : Type 0 where
  pub body : Option String
  pub receipt_handle : Option String

pub record DeleteMessage : Type 0 where
  pub queue_url : String
  pub receipt_handle : String

-- What the handler reads of `Config`.
pub record HandlerConfig : Type 0 where
  pub sqs_queue_url : String
  pub match_radius_km : ℕ
  pub environment : String

pub record World (F : Type 0) : Type 0 where
  pub db : Database F
  pub bus : List PutEventsRequestEntry
  pub deleted : List DeleteMessage
  pub printed : List (Members F)

pub record HandleIo : Type 0 where
  pub assign : AssignIo
  pub utc_now : DateTime
  pub since_epoch : Option ℕ
  pub put : PutIo
  pub delete : Outcome

abbrev pub delete_request : HandlerConfig → String → DeleteMessage
delete_request cfg handle = record { queue_url = cfg.sqs_queue_url; receipt_handle = handle }

-- `(Utc::now() - event.created_at).num_milliseconds().max(0)`
unfoldable pub time_since_created_ms : DateTime → DateTime → ℕ
time_since_created_ms now created_at = max_zero (quot (now -ℤ created_at) 1_000_000)

module _ {F : Type 0} where
  abbrev pub delete_by :
      Outcome
      → HandlerConfig
      → Option String
      → World F
      → Result (WorkerError F) (Unit {0}) × World F
  delete_by io cfg none w = (ok tt, w)
  delete_by io cfg (some handle) w =
      attempt io aws w (ok tt, record w { deleted = w.deleted ++ delete_request cfg handle ∷ [] })

  unfoldable pub delete_message :
      Outcome → HandlerConfig → Message → World F → Result (WorkerError F) (Unit {0}) × World F
  delete_message io cfg message w = delete_by io cfg message.receipt_handle w

  abbrev pub on_db :
      {A : Type 0}
      → Result (WorkerError F) A × Database F
      → World F
      → Result (WorkerError F) A × World F
  on_db (r, db) w = (r, record w { db = db })

module _ {F : Type 0} ⦃f : Float F⦄ where
  open f use {of_ℕ}

  abbrev pub emit_match_outcome :
      HandleIo → HandlerConfig → String → OrderCreated F → World F → World F
  emit_match_outcome io cfg outcome event w = record w {
    printed =
        w.printed
        ++ payload io.since_epoch cfg.environment outcome
            (of_ℕ (time_since_created_ms io.utc_now event.created_at))
          ∷ [];
  }

module _ {F : Type 0} ⦃f : Float F⦄ (codec : Codec F) where
  abbrev pub on_bus :
      PutIo
      → DispatchEventPublisher
      → DispatchAssigned F
      → World F
      → Result (WorkerError F) (Unit {0}) × World F
  on_bus io publisher e w =
      let (r, bus) = publish codec io publisher e w.bus in (r, record w { bus = bus })

  -- The `match` on the outcome of the attempt.
  unfoldable pub conclude :
      HandleIo
      → DispatchEventPublisher
      → HandlerConfig
      → Message
      → OrderCreated F
      → AssignOutcome F
      → World F
      → Result (WorkerError F) (Unit {0}) × World F
  conclude io publisher cfg message event (assigned e) w =
      and_then (on_bus io.put publisher e (emit_match_outcome io cfg "assigned" event w))
        (λ _. delete_message io.delete cfg message)
  conclude io publisher cfg message event already_handled w =
      delete_message io.delete cfg message (emit_match_outcome io cfg "already_handled" event w)
  conclude io publisher cfg message event no_driver_available w =
      (ok tt, emit_match_outcome io cfg "no_driver_available" event w)

  unfoldable pub handle_event :
      HandleIo
      → DispatchEventPublisher
      → HandlerConfig
      → Message
      → OrderCreated F
      → World F
      → Result (WorkerError F) (Unit {0}) × World F
  handle_event io publisher cfg message event w =
      and_then
        (on_db (assign_order io.assign event.order_id event.pickup cfg.match_radius_km w.db) w)
        (conclude io publisher cfg message event)

  abbrev pub handle_decoded :
      HandleIo
      → DispatchEventPublisher
      → HandlerConfig
      → Message
      → Option (OrderCreated F)
      → World F
      → Result (WorkerError F) (Unit {0}) × World F
  handle_decoded io publisher cfg message none w = (err bad_json, w)
  handle_decoded io publisher cfg message (some event) w =
      handle_event io publisher cfg message event w

  abbrev pub handle_body :
      HandleIo
      → DispatchEventPublisher
      → HandlerConfig
      → Message
      → Option String
      → World F
      → Result (WorkerError F) (Unit {0}) × World F
  handle_body io publisher cfg message none w = delete_message io.delete cfg message w
  handle_body io publisher cfg message (some body) w =
      handle_decoded io publisher cfg message (codec.order_from_str body) w

  unfoldable pub handle_message :
      HandleIo
      → DispatchEventPublisher
      → HandlerConfig
      → Message
      → World F
      → Result (WorkerError F) (Unit {0}) × World F
  handle_message io publisher cfg message w = handle_body io publisher cfg message message.body w
