-- ===== src/Api/Sqs.antt =====
-- services/dispatch-api/src/sqs.rs: one `send_message` for an order. What SQS accepts is recorded
-- in a log.
use velocity_dispatch.Prelude.{List, [], ◌∷◌, ◌++◌, String, Result, ok, Outcome, attempt}
use velocity_dispatch.Core.Events.{OrderCreated, sqs_message_type}
use velocity_dispatch.Core.Codec.{Codec}

-- `SendMessage`, with the one message attribute, `event_type`.
pub record SendMessage : Type 0 where
  pub queue_url : String
  pub message_body : String
  pub event_type : String

pub data SqsSendError : Type 0 where
  sqs_send_error : SqsSendError

pub record OrderEventPublisher : Type 0 where
  pub queue_url : String

module _ {F : Type 0} (codec : Codec F) where
  abbrev pub message_of : OrderEventPublisher → OrderCreated F → SendMessage
  message_of self event = record {
    queue_url = self.queue_url;
    message_body = codec.order_to_string event;
    event_type = sqs_message_type;
  }

  unfoldable pub publish :
      Outcome
      → OrderEventPublisher
      → OrderCreated F
      → List SendMessage
      → Result SqsSendError (Unit {0}) × List SendMessage
  publish io self event sent =
      attempt io sqs_send_error sent (ok tt, sent ++ message_of self event ∷ [])
