-- ===== src/System/Queue.antt =====
-- The queue between the services, with its redrive policy (infra/terraform/sqs.tf): SQS hands a
-- message to a worker again until it is deleted, or has been received as often as the policy says;
-- then it moves to the dead-letter queue. Also a copy of a message that was deleted may be delivered.
-- That a message expires after days in a queue is left out.
pub mod Pending
pub mod Tracked
pub mod Kept
pub mod Drains
pub mod Serves
use velocity_dispatch.Prelude.{ℕ, suc, ◌+◌, ◌≡◌, ◌<◌, List, [], ◌∷◌, ◌++◌, String, Memᴰ}
use velocity_dispatch.Float.{Float}
use velocity_dispatch.Core.Model.{Uuid}
use velocity_dispatch.Core.Codec.{Codec}
use velocity_dispatch.Api.Sqs.{SendMessage, OrderEventPublisher}
use velocity_dispatch.Api.Routes.{
  CreateIo, CreateOrderRequest, DriverIo, RegisterDriverRequest, UpdateLocationRequest,
  create_order, register_driver, update_driver_location, message,
}
use velocity_dispatch.Worker.Eventbridge.{DispatchEventPublisher}
use velocity_dispatch.Worker.Handler.{HandlerConfig, HandleIo, handle_message}
use velocity_dispatch.System.Run.{State, delivery, api_of, after_api, world_of, after_worker}

-- A message in the queue, and how often it was received.
pub record Letter : Type 0 where
  pub message : SendMessage
  pub received : ℕ

pub record Mail (F : Type 0) : Type 0 where
  pub state : State F
  pub queue : List Letter
  -- the dead-letter queue
  pub dead : List SendMessage
  -- the ids of requests after which SQS has no message
  pub unsent : List Uuid

abbrev pub letter : SendMessage → Letter
letter m = record { message = m; received = 0 }

abbrev pub again : Letter → Letter
again l = record l { received = suc l.received }

module _ {F : Type 0} ⦃f : Float F⦄ (codec : Codec F) (sqs : OrderEventPublisher)
    (publisher : DispatchEventPublisher) (cfg : HandlerConfig) where
  abbrev pub requests : CreateIo → CreateOrderRequest F → Mail F → State F
  requests io body s = after_api s.state (create_order codec io body (api_of sqs s.state)).1

  abbrev pub handles : HandleIo → SendMessage → String → Mail F → State F
  handles io m handle s =
      after_worker s.state
        (handle_message codec io publisher cfg (delivery m handle) (world_of s.state)).1

  -- A worker receives a message, or SQS gives it up, with `max_receive_count` as in the policy.
  pub data Receives (max_receive_count : ℕ) (s t : Mail F) : Type 0 where
    deletes :
        (io : HandleIo) (handle : String) (xs ys : List Letter) (l : Letter)
        → s.queue ≡ xs ++ l ∷ ys
        → l.received < max_receive_count
        → ¬ ((handles io l.message handle s).deleted ≡ s.state.deleted)
        → t ≡ record s { state = handles io l.message handle s; queue = xs ++ ys }
        → Receives max_receive_count s t
    leaves :
        (io : HandleIo) (handle : String) (xs ys : List Letter) (l : Letter)
        → s.queue ≡ xs ++ l ∷ ys
        → l.received < max_receive_count
        → (handles io l.message handle s).deleted ≡ s.state.deleted
        → t ≡ record s { state = handles io l.message handle s; queue = xs ++ again l ∷ ys }
        → Receives max_receive_count s t
    redrives :
        (xs ys : List Letter) (l : Letter)
        → s.queue ≡ xs ++ l ∷ ys
        → l.received ≡ max_receive_count
        → t ≡ record s { queue = xs ++ ys; dead = l.message ∷ s.dead }
        → Receives max_receive_count s t

  pub data Post (max_receive_count : ℕ) (s t : Mail F) : Type 0 where
    sends :
        (io : CreateIo) (body : CreateOrderRequest F)
        → (requests io body s).sent
          ≡ s.state.sent ++ message codec io body (api_of sqs s.state) ∷ []
        → t ≡ record s {
          state = requests io body s;
          queue = letter (message codec io body (api_of sqs s.state)) ∷ s.queue;
        }
        → Post max_receive_count s t
    sends_nothing :
        (io : CreateIo) (body : CreateOrderRequest F)
        → (requests io body s).sent ≡ s.state.sent
        → t ≡ record s { state = requests io body s; unsent = io.new_id ∷ s.unsent }
        → Post max_receive_count s t
    registers :
        (io : DriverIo) (body : RegisterDriverRequest F)
        → t
          ≡ record s { state = after_api s.state (register_driver io body (api_of sqs s.state)).1 }
        → Post max_receive_count s t
    reports :
        (io : DriverIo) (id : Uuid) (body : UpdateLocationRequest F)
        → t ≡ record s {
          state = after_api s.state (update_driver_location io id body (api_of sqs s.state)).1;
        }
        → Post max_receive_count s t
    receives : Receives max_receive_count s t → Post max_receive_count s t
    -- a message that was sent, once more
    repeats :
        (io : HandleIo) (m : SendMessage) (handle : String)
        → Memᴰ m s.state.sent
        → t ≡ record s { state = handles io m handle s }
        → Post max_receive_count s t

  pub data Posts (max_receive_count : ℕ) (s : Mail F) : Mail F → Type 0 where
    nothing : Posts max_receive_count s s
    then_post :
        {t u : Mail F}
        → Posts max_receive_count s t
        → Post max_receive_count t u
        → Posts max_receive_count s u
