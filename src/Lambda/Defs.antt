-- ===== src/Lambda/Defs.antt =====
-- main.rs, notify.rs and audit.rs of the lambda, over the log of what SNS accepted and the objects
-- of the bucket. S3 keeps one body for each key: a put overwrites.
use velocity_dispatch.Prelude.{
  Bool, ◌&&◌, List, [], ◌∷◌, ◌++◌, String, Option, none, some, Result, ok, Outcome, attempt, ◌>>◌,
  return, if◌then◌else◌, ◌==◌, str_eq,
}
use velocity_dispatch.Core.Model.{Uuid}
use velocity_dispatch.Core.Events.{DispatchAssigned}
use velocity_dispatch.Core.Json.{Json, text, uuid, float, object, end, member}

-- `format!("assignments/{}/{}.json", order_id, assignment_id)`: the text, by its two parts.
pub record AuditKey : Type 0 where
  pub order_id : Uuid
  pub assignment_id : Uuid

pub record Publish (F : Type 0) : Type 0 where
  pub topic_arn : String
  pub message : Json F
  pub subject : String

pub record PutObject (F : Type 0) : Type 0 where
  pub bucket : String
  pub key : AuditKey
  -- the record that `serde_json::to_vec_pretty` prints
  pub body : DispatchAssigned F

pub data LambdaError : Type 0 where
  sns_error s3_error : LambdaError

pub record Sinks (F : Type 0) : Type 0 where
  pub notified : List (Publish F)
  pub objects : List (PutObject F)

pub record LambdaIo : Type 0 where
  pub publish : Outcome
  pub put : Outcome

abbrev pub same_object : String → AuditKey → String → AuditKey → Bool
same_object b k c l = str_eq b c && (k.order_id == l.order_id && k.assignment_id == l.assignment_id)

module _ {F : Type 0} where
  abbrev pub audit_key : DispatchAssigned F → AuditKey
  audit_key e = record { order_id = e.order_id; assignment_id = e.assignment_id }

  -- `PutObject` replaces the object under its bucket and key.
  abbrev pub put_object : PutObject F → List (PutObject F) → List (PutObject F)
  put_object o [] = o ∷ []
  put_object o (p ∷ ps) =
      let rest = put_object o ps in
      if same_object p.bucket p.key o.bucket o.key then o ∷ ps else p ∷ rest

  abbrev pub notification : DispatchAssigned F → Json F
  notification e = object (
      member "assignmentId" (uuid e.assignment_id) (
        member "orderId" (uuid e.order_id)
          (member "driverId" (uuid e.driver_id) (member "distanceKm" (float e.distance_km) end))))

  abbrev pub publish_request : String → DispatchAssigned F → Publish F
  publish_request topic_arn e = record {
    topic_arn = topic_arn;
    message = notification e;
    subject = "Driver assigned to your order";
  }

  unfoldable pub send_assignment_notification :
      Outcome
      → Option String
      → DispatchAssigned F
      → Sinks F
      → Result LambdaError (Unit {0}) × Sinks F
  send_assignment_notification io none e s = (ok tt, s)
  send_assignment_notification io (some topic_arn) e s =
      attempt io sns_error s
        (ok tt, record s { notified = s.notified ++ publish_request topic_arn e ∷ [] })

  abbrev pub audit_object : String → DispatchAssigned F → PutObject F
  audit_object bucket e = record { bucket = bucket; key = audit_key e; body = e }

  unfoldable pub write_audit_record :
      Outcome
      → Option String
      → DispatchAssigned F
      → Sinks F
      → Result LambdaError (Unit {0}) × Sinks F
  write_audit_record io none e s = (ok tt, s)
  write_audit_record io (some bucket) e s =
      attempt io s3_error s
        (ok tt, record s { objects = put_object (audit_object bucket e) s.objects })

  abbrev pub processed : DispatchAssigned F → Json F
  processed e =
      object (member "assignmentId" (uuid e.assignment_id) (member "status" (text "processed") end))

  unfoldable pub handle_event :
      LambdaIo
      → Option String
      → Option String
      → DispatchAssigned F
      → Sinks F
      → Result LambdaError (Json F) × Sinks F
  handle_event io audit_bucket notify_topic_arn e = do
    send_assignment_notification io.publish notify_topic_arn e
    write_audit_record io.put audit_bucket e
    return (processed e)
