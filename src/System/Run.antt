-- ===== src/System/Run.antt =====
-- All histories of the system: requests to the API, and deliveries of published messages to workers,
-- each message any number of times, in any order, with any failures. A delivery is one step, so the
-- transactions of two workers come one after the other here.
use velocity_dispatch.Prelude.{◌≡◌, List, String, some, Memᴰ}
use velocity_dispatch.Float.{Float}
use velocity_dispatch.Core.Model.{Uuid}
use velocity_dispatch.Core.Codec.{Codec}
use velocity_dispatch.Core.Json.{Members}
use velocity_dispatch.Store.{Database}
use velocity_dispatch.Api.Sqs.{SendMessage, OrderEventPublisher}
use velocity_dispatch.Api.Routes.{
  AppState, CreateIo, CreateOrderRequest, DriverIo, RegisterDriverRequest, UpdateLocationRequest,
  create_order, register_driver, update_driver_location,
}
use velocity_dispatch.Worker.Eventbridge.{PutEventsRequestEntry, DispatchEventPublisher}
use velocity_dispatch.Worker.Handler.{
  Message, DeleteMessage, HandlerConfig, World, HandleIo, handle_message,
}

pub record State (F : Type 0) : Type 0 where
  pub db : Database F
  pub sent : List SendMessage
  pub bus : List PutEventsRequestEntry
  pub deleted : List DeleteMessage
  pub printed : List (Members F)

-- SQS hands the message to a worker.
abbrev pub delivery : SendMessage → String → Message
delivery m handle = record { body = some m.message_body; receipt_handle = some handle }

module _ {F : Type 0} where
  abbrev pub api_of : OrderEventPublisher → State F → AppState F
  api_of publisher s = record { db = s.db; sent = s.sent; publisher = publisher }

  abbrev pub after_api : State F → AppState F → State F
  after_api s a = record s { db = a.db; sent = a.sent }

  abbrev pub world_of : State F → World F
  world_of s = record { db = s.db; bus = s.bus; deleted = s.deleted; printed = s.printed }

  abbrev pub after_worker : State F → World F → State F
  after_worker s w = record s { db = w.db; bus = w.bus; deleted = w.deleted; printed = w.printed }

module _ {F : Type 0} ⦃f : Float F⦄ (codec : Codec F) (sqs : OrderEventPublisher)
    (publisher : DispatchEventPublisher) (cfg : HandlerConfig) where
  pub data Step (s t : State F) : Type 0 where
    creates :
        (io : CreateIo) (body : CreateOrderRequest F)
        → t ≡ after_api s (create_order codec io body (api_of sqs s)).1
        → Step s t
    registers :
        (io : DriverIo) (body : RegisterDriverRequest F)
        → t ≡ after_api s (register_driver io body (api_of sqs s)).1
        → Step s t
    reports :
        (io : DriverIo) (id : Uuid) (body : UpdateLocationRequest F)
        → t ≡ after_api s (update_driver_location io id body (api_of sqs s)).1
        → Step s t
    delivers :
        (io : HandleIo) (m : SendMessage) (handle : String)
        → Memᴰ m s.sent
        → t
          ≡ after_worker s
              (handle_message codec io publisher cfg (delivery m handle) (world_of s)).1
        → Step s t

  pub data Reach (s : State F) : State F → Type 0 where
    here : Reach s s
    next : {t u : State F} → Reach s t → Step t u → Reach s u
