-- ===== src/System/Announce/Reaches.antt =====
-- An order's whole way, where every call is answered.
use mathlib.Core.Path.{subst}
use velocity_dispatch.Prelude.{
  ◌≡◌, refl, sym, ◌∙◌, ap, false, [], ◌∷◌, ◌++◌, String, some, ok, done, mem_mid, ==_refl,
}
use velocity_dispatch.Float.{Float}
use velocity_dispatch.Core.Model.{Driver}
use velocity_dispatch.Core.Coordinates.{IsOnEarth}
use velocity_dispatch.Core.Events.{OrderCreated, DispatchAssigned}
use velocity_dispatch.Core.Codec.{Codec, IsFaithful}
use velocity_dispatch.Core.Geo.{nearest_driver}
use velocity_dispatch.Store.{has, row_of-append}
use velocity_dispatch.Api.Db.{order_key, row_of_order}
use velocity_dispatch.Api.Sqs.{OrderEventPublisher}
use velocity_dispatch.Api.Routes.{
  CreateIo, CreateOrderRequest, create_order_created, requested, event_of, to_point, message,
  accepted,
}
use velocity_dispatch.Worker.Db.{assignment_key}
use velocity_dispatch.Worker.Matching.{
  AllDone, assign_order_assigns, candidates, Pending, complete, event,
}
use velocity_dispatch.Worker.Eventbridge.{DispatchEventPublisher, entry_of}
use velocity_dispatch.Worker.Handler.{
  HandlerConfig, HandleIo, handle_message_announces, taken, delete_request, announced_world,
}
use velocity_dispatch.Lambda.Defs.{
  handle_event, send_assignment_notification, write_audit_record, LambdaIo, Sinks, audit_key,
  audit_object, put_object, publish_request,
}
use velocity_dispatch.Lambda.Audit.{get_object, get_object-put_object}
use velocity_dispatch.Start.Config.{Env}
use velocity_dispatch.Start.Main.{lambda_handler}
use velocity_dispatch.System.Run.{
  State, Step, creates, delivers, api_of, after_api, world_of, after_worker,
}
use velocity_dispatch.System.Sound.{IsSound, Step-IsSound}
use velocity_dispatch.System.Lifecycle.{settled, board}
use velocity_dispatch.System.Lifecycle.Simulates.{complete-board}
use velocity_dispatch.System.Announce.{
  EventDecoder, SameAssignment, Decodes, Feed, serves, announces, Ticks, unmoved, moved,
}

-- Every call for the order is answered: of the API, of the worker, and of the lambda.
pub record AllAnswered (cio : CreateIo) (hio : HandleIo) (lio : LambdaIo) : Type 0 where
  pub insert : cio.insert ≡ done
  pub send : cio.publish ≡ done
  pub assign : AllDone hio.assign
  pub put : hio.put ≡ taken
  pub delete : hio.delete ≡ done
  pub notify : lio.publish ≡ done
  pub audit : lio.put ≡ done

module _ {F : Type 0} ⦃f : Float F⦄ (codec : Codec F) (sqs : OrderEventPublisher)
    (publisher : DispatchEventPublisher) (cfg : HandlerConfig) (decoder : EventDecoder F)
    (faithful : IsFaithful codec) (decodes : Decodes codec decoder) where
  module _ (s : State F) (cio : CreateIo) (body : CreateOrderRequest F) where
    -- The order is stored, and its message is in the queue.
    abbrev placed : State F
    placed = record s {
      db = record (s.db) {
        orders = s.db.orders ++ row_of_order cio.stored_at (requested cio body) ∷ [];
      };
      sent = s.sent ++ message codec cio body (api_of sqs s) ∷ [];
    }

    placed-Step :
        IsOnEarth (to_point body.pickup)
        → IsOnEarth (to_point body.dropoff)
        → has order_key cio.new_id s.db.orders ≡ false
        → cio.insert ≡ done
        → cio.publish ≡ done
        → Step codec sqs publisher cfg s placed
    placed-Step p d new inserted sent = creates cio body (
        ap
          (λ l. record s {
            db = record (s.db) {
              orders = s.db.orders ++ row_of_order cio.stored_at (requested cio body) ∷ [];
            };
            sent = s.sent ++ l;
          })
          (sym (ap (λ o. accepted codec o (message codec cio body (api_of sqs s))) sent))
        ∙ ap (λ r. after_api s r.1)
            (sym (create_order_created codec cio body (api_of sqs s) p d new inserted)))

    placed-Pending : has order_key cio.new_id s.db.orders ≡ false → Pending cio.new_id placed.db
    placed-Pending new = (
      row_of_order cio.stored_at (requested cio body),
      rw
          (row_of-append order_key cio.new_id s.db.orders
            (row_of_order cio.stored_at (requested cio body)))
          (rw (new, ==_refl cio.new_id)),
      refl,
    )

    module _ (hio : HandleIo) (handle detail : String) (d : OrderCreated F) (x : Driver F × F) where
      abbrev assignment_of : DispatchAssigned F
      assignment_of = event hio.assign d.order_id x.0.id x.1 hio.assign.new_id

      -- Its driver is stored, and the event is on the bus.
      abbrev dispatched : State F
      dispatched = after_worker placed (
          announced_world codec hio publisher cfg handle d assignment_of
            (complete hio.assign d.order_id x.0.id x.1 placed.db) detail (world_of placed))

      dispatched-Step :
          AllDone hio.assign
          → hio.put ≡ taken
          → hio.delete ≡ done
          → IsSound codec sqs publisher cfg placed
          → Pending d.order_id placed.db
          → has assignment_key hio.assign.new_id s.db.assignments ≡ false
          → codec.order_from_str (message codec cio body (api_of sqs s)).message_body ≡ some d
          → codec.assigned_to_string assignment_of ≡ some detail
          → nearest_driver d.pickup (candidates hio.assign s.db) cfg.match_radius_km ≡ ok x
          → Step codec sqs publisher cfg placed dispatched
      dispatched-Step all put deleted sound pending new parses spelled near =
          let m = message codec cio body (api_of sqs s) in
          delivers hio m handle (mem_mid m s.sent []) (
            ap (λ r. after_worker placed r.1)
              (sym (
                handle_message_announces codec hio publisher cfg m.message_body handle detail d
                  assignment_of (complete hio.assign d.order_id x.0.id x.1 placed.db)
                  (world_of placed) parses
                  (assign_order_assigns hio.assign d.order_id d.pickup cfg.match_radius_km placed.db
                    x all sound.schema.order_keys pending new near)
                  spelled put deleted)))

  told_sinks :
      (env : Env) (lio : LambdaIo) (topic bucket : String) (e : DispatchAssigned F) (s : Sinks F)
      → lio.publish ≡ done
      → lio.put ≡ done
      → env "NOTIFY_TOPIC_ARN" ≡ some topic
      → env "AUDIT_BUCKET" ≡ some bucket
      → (lambda_handler env lio e s).1 ≡ record {
        notified = s.notified ++ publish_request topic e ∷ [];
        objects = put_object (audit_object bucket e) s.objects;
      }
  unfolding lambda_handler handle_event send_assignment_notification write_audit_record
  told_sinks env lio topic bucket e s notify audit is_topic is_bucket =
      rw (is_topic, is_bucket) (rw (notify, audit) refl)

  -- From a sound state, if every call for an order is answered, a topic and a bucket are
  -- configured, the event has a text, and `nearest_driver` finds a driver for the parsed pickup
  -- among the available ones that are not locked: a request between two points on Earth, with
  -- fresh ids, leads to a history of the services, the bus and the lambda, at the end of which the
  -- order is settled with that driver, its message is deleted, one more notification is sent, and
  -- the audit record is in the bucket; both are of an event with the ids of the assignment. The
  -- codec is assumed to parse what it printed for points on Earth, to the same order, and the
  -- decoder to find the ids that the codec printed.
  pub order_reaches_customer :
      (s : Feed F) (cio : CreateIo) (body : CreateOrderRequest F) (hio : HandleIo) (lio : LambdaIo)
      (env : Env) (handle detail topic bucket : String) (d : OrderCreated F) (x : Driver F × F)
      → IsSound codec sqs publisher cfg s.state
      → AllAnswered cio hio lio
      → IsOnEarth (to_point body.pickup)
      → IsOnEarth (to_point body.dropoff)
      → has order_key cio.new_id s.state.db.orders ≡ false
      → has assignment_key hio.assign.new_id s.state.db.assignments ≡ false
      → codec.order_from_str (message codec cio body (api_of sqs s.state)).message_body ≡ some d
      → nearest_driver d.pickup (candidates hio.assign s.state.db) cfg.match_radius_km ≡ ok x
      → codec.assigned_to_string (event hio.assign d.order_id x.0.id x.1 hio.assign.new_id)
        ≡ some detail
      → env "NOTIFY_TOPIC_ARN" ≡ some topic
      → env "AUDIT_BUCKET" ≡ some bucket
      → (t : Feed F) × (e : DispatchAssigned F) × Ticks codec sqs publisher cfg decoder s t
        × (board t.state.db cio.new_id ≡ settled (some x.0.id))
        × SameAssignment e (event hio.assign d.order_id x.0.id x.1 hio.assign.new_id)
        × (t.state.deleted ≡ s.state.deleted ++ delete_request cfg handle ∷ [])
        × (t.sinks.notified ≡ s.sinks.notified ++ publish_request topic e ∷ [])
        × (get_object bucket (audit_key e) t.sinks.objects ≡ some (audit_object bucket e))
  order_reaches_customer s cio body hio lio env handle detail topic bucket d x sound all p q
        new_order new_assignment parses near spelled is_topic is_bucket =
      let (d', parses', same_id, _) =
        faithful.order_round_trip (event_of (requested cio body)) p q in
      let same_event : d' ≡ d = cc in
      let the_id : d.order_id ≡ cio.new_id =
        sym (ap (λ (y : OrderCreated F). y.order_id) same_event) ∙ same_id in
      let s1 = placed s.state cio body in
      let first = placed-Step s.state cio body p q new_order all.insert all.send in
      let sound1 = Step-IsSound codec sqs publisher cfg faithful first sound in
      let pending =
        subst (λ i. Pending i s1.db) (sym the_id) (placed-Pending s.state cio body new_order) in
      let s2 = dispatched s.state cio body hio handle detail d x in
      let second =
        dispatched-Step s.state cio body hio handle detail d x all.assign all.put all.delete sound1
          pending new_assignment parses spelled near in
      let (e, decoded, same) =
        decodes.round_trip (assignment_of s.state cio body hio handle detail d x) detail spelled in
      let told =
        told_sinks env lio topic bucket e s.sinks all.notify all.audit is_topic is_bucket in
      (
        record { state = s2; sinks = (lambda_handler env lio e s.sinks).1 },
        e,
        moved (moved (moved unmoved (serves s1 first refl)) (serves s2 second refl)) (
            announces env lio (entry_of publisher detail) e (mem_mid _ s.state.bus []) refl decoded
              refl),
        subst (λ i. board s2.db i ≡ settled (some x.0.id)) the_id
            (complete-board hio.assign d.order_id x.0.id x.1 s1.db pending sound1.balanced),
        same,
        refl,
        ap (λ (y : Sinks F). y.notified) told,
        ap (λ (y : Sinks F). get_object bucket (audit_key e) y.objects) told
            ∙ get_object-put_object (audit_object bucket e) s.sinks.objects,
      )
