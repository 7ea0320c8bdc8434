-- ===== src/Tests/AnnounceTests.antt =====
-- From a request to the customer, on the inputs of the tests.
use mathlib.Core.Path.{subst}
use velocity_dispatch.Prelude.{
  ◌≡◌, ◌≤◌, refl, [], ◌∷◌, some, none, str_eq, if◌then◌else◌, count, done, All, Memᴰ, arith,
}
use velocity_dispatch.Prelude.Int.{pos}
use velocity_dispatch.Float.Sample.{Sample, num, sample_float}
use velocity_dispatch.Core.Model.{Driver, available, new_point}
use velocity_dispatch.Core.Events.{OrderCreated, DispatchAssigned}
use velocity_dispatch.Core.Codec.Sample.{
  sample_codec, sample_codec-IsFaithful, read_assigned, print_assigned, read-print_assigned,
  read_order,
}
use velocity_dispatch.Core.Geo.{nearest_driver, haversine_km}
use velocity_dispatch.Api.Routes.{message, create_order}
use velocity_dispatch.Api.Sqs.{publish}
use velocity_dispatch.Api.Db.{insert_order, insert_order_row}
use velocity_dispatch.Worker.Matching.{event, assignment_row}
use velocity_dispatch.Worker.Handler.{HandlerConfig, handle_message, delete_request}
use velocity_dispatch.System.Run.{
  State, api_of, after_api, after_worker, world_of, delivery, Reach, here, next, creates, delivers,
}
use velocity_dispatch.System.Sound.{IsSound}
use velocity_dispatch.Lambda.Defs.{
  LambdaIo, audit_key, audit_object, publish_request, handle_event, send_assignment_notification,
  write_audit_record,
}
use velocity_dispatch.Lambda.Audit.{get_object}
use velocity_dispatch.System.Lifecycle.{settled, board}
use velocity_dispatch.Worker.Eventbridge.{PutEventsRequestEntry, entry_of}
use velocity_dispatch.Tests.Data.{
  taken_db, assign_io, bus_publisher, queue_publisher, config, create_io, handle_io, order_request,
  point,
}
use velocity_dispatch.Start.Main.{lambda_handler}
use velocity_dispatch.System.Announce.Stored.{IsStored}
use velocity_dispatch.System.Announce.{
  unmoved, moved, announces, EventDecoder, SameAssignment, Decodes, Feed, Ticks,
}
use velocity_dispatch.Start.Config.{Env}
use velocity_dispatch.System.Announce.Bus.{IsAnnounced, IsBacked, about, Reach-announced_once}
use velocity_dispatch.System.Announce.Heard.{IsHeard, IsTruthful, Ticks-IsHeard, Ticks-one_record}
use velocity_dispatch.System.Announce.Reaches.{order_reaches_customer}
use velocity_dispatch.Tests.SystemTests.{first_state, first_state-IsSound, sent_message}

abbrev pub sample_decoder : EventDecoder Sample
sample_decoder = record { assigned_from_str = λ s. some (read_assigned s) }

pub sample_decoder-Decodes : Decodes sample_codec sample_decoder
sample_decoder-Decodes = record {
  round_trip = λ e detail h.
      let same : print_assigned e ≡ detail = cc in
      let (a, o, d) = read-print_assigned e in
      (
        read_assigned detail,
        refl,
        subst (λ t. SameAssignment (read_assigned t) e) same
            (record { assignment_id = a; order_id = o; driver_id = d }),
      );
}

first_state-IsAnnounced : IsAnnounced sample_decoder first_state
first_state-IsAnnounced = record { backed = tt; counted = λ id. omega arith }

-- A radius that reaches the drivers from anywhere.
abbrev pub wide : HandlerConfig
wide = record config { match_radius_km = 1_000_000_000 }

abbrev heard_nothing : Feed Sample
heard_nothing = record { state = first_state; sinks = record { notified = []; objects = [] } }

first_state-IsWide : IsSound sample_codec queue_publisher bus_publisher wide first_state
first_state-IsWide = record {
  schema = first_state-IsSound.schema;
  balanced = λ id. refl;
  known = tt;
}

abbrev pub parsed : OrderCreated Sample
parsed =
    read_order
      (message sample_codec create_io order_request
        (api_of queue_publisher first_state)).message_body

abbrev pub ann_far : Driver Sample × Sample
ann_far = (
  record { id = 1; name = "ann"; location = point 11 10; status = available; updated_at = pos 6 },
  num (pos 2_815_982),
)

abbrev pub after_order : State Sample
after_order =
    after_api first_state
      (create_order sample_codec create_io order_request (api_of queue_publisher first_state)).1

abbrev pub after_delivery : State Sample
after_delivery =
    after_worker after_order
      (handle_message sample_codec handle_io bus_publisher wide (delivery sent_message "handle")
        (world_of after_order)).1

-- An order, and a delivery that assigns it.
pub assigning : Reach sample_codec queue_publisher bus_publisher wide first_state after_delivery
unfolding create_order new_point insert_order insert_order_row publish
assigning =
    next (next here (creates create_io order_request refl))
      (delivers handle_io sent_message "handle" (Memᴰ.head refl) refl)

Reach-announced_once_example :
    All (IsBacked sample_decoder after_delivery.db) after_delivery.bus
    × (count (about sample_decoder 8) after_delivery.bus ≤ 1)
Reach-announced_once_example =
    Reach-announced_once sample_codec queue_publisher bus_publisher wide sample_decoder
      sample_decoder-Decodes sample_codec-IsFaithful 8 first_state-IsWide first_state-IsAnnounced
      assigning

abbrev lambda_env : Env
lambda_env v =
    if str_eq v "NOTIFY_TOPIC_ARN"
    then some "topic"
    else if str_eq v "AUDIT_BUCKET"
    then some "audit"
    else none

abbrev told : LambdaIo
told = record { publish = done; put = done }

abbrev pub ann_wins : DispatchAssigned Sample
ann_wins = event handle_io.assign parsed.order_id 1 (num (pos 2_815_982)) 9

order_reaches_customer_example :
    (t : Feed Sample) × (e : DispatchAssigned Sample) × Ticks sample_codec queue_publisher
      bus_publisher wide sample_decoder heard_nothing t
    × (board t.state.db 8 ≡ settled (some 1))
    × SameAssignment e ann_wins
    × (t.state.deleted ≡ delete_request wide "handle" ∷ [])
    × (t.sinks.notified ≡ publish_request "topic" e ∷ [])
    × (get_object "audit" (audit_key e) t.sinks.objects ≡ some (audit_object "audit" e))
unfolding nearest_driver haversine_km
order_reaches_customer_example =
    order_reaches_customer sample_codec queue_publisher bus_publisher wide sample_decoder
      sample_codec-IsFaithful sample_decoder-Decodes heard_nothing create_io order_request handle_io
      told lambda_env "handle" (print_assigned ann_wins) "topic" "audit" parsed ann_far
      first_state-IsWide
      (record {
        insert = refl;
        send = refl;
        assign = record {
          begin = refl;
          claim = refl;
          select = refl;
          insert = refl;
          update = refl;
          finish = refl;
        };
        put = refl;
        delete = refl;
        notify = refl;
        audit = refl;
      })
      (ground arith) (ground arith) refl refl refl refl refl refl refl

-- The event of the assignment of order 7 to ann is on the bus.
abbrev pub taken_event : DispatchAssigned Sample
taken_event = event assign_io 7 1 (num (pos 12_742)) 9

abbrev pub taken_entry : PutEventsRequestEntry
taken_entry = entry_of bus_publisher (print_assigned taken_event)

abbrev taken_feed : Feed Sample
taken_feed = record {
  state = record first_state { db = taken_db; bus = taken_entry ∷ [] };
  sinks = record { notified = []; objects = [] };
}

abbrev heard_event : DispatchAssigned Sample
heard_event = read_assigned (print_assigned taken_event)

taken_stored : IsStored taken_db heard_event
taken_stored = record {
  row = assignment_row assign_io 7 1 (num (pos 12_742));
  there = Memᴰ.head refl;
  id = refl;
  order_id = refl;
  driver_id = refl;
}

taken_feed-IsTruthful :
    IsTruthful sample_codec queue_publisher bus_publisher config sample_decoder
      sample_decoder-Decodes sample_codec-IsFaithful taken_feed
taken_feed-IsTruthful = record {
  sound = record {
    schema = record {
      order_keys = (refl, tt);
      driver_keys = (refl, (refl, (refl, tt)));
      assignment_keys = (refl, tt);
      order_checks = (refl, tt);
      driver_checks = (refl, (refl, (refl, tt)));
      references = ((refl, refl), tt);
    };
    balanced = λ id. ground arith;
    known = tt;
  };
  announced = record {
    backed = ((refl, heard_event, refl, taken_stored), tt);
    counted = λ id. ground arith;
  };
  heard = record { notices = tt; records = tt };
}

abbrev heard_once : Feed Sample
heard_once = record {
  state = taken_feed.state;
  sinks = record {
    notified = publish_request "topic" heard_event ∷ [];
    objects = audit_object "audit" heard_event ∷ [];
  };
}

-- The event is delivered once.
hearing :
    Ticks sample_codec queue_publisher bus_publisher config sample_decoder taken_feed heard_once
unfolding lambda_handler handle_event send_assignment_notification write_audit_record
hearing =
    moved unmoved
      (announces lambda_env told taken_entry heard_event (Memᴰ.head refl) refl refl refl)

Ticks-IsHeard_example : IsHeard taken_db heard_once.sinks
Ticks-IsHeard_example =
    Ticks-IsHeard sample_codec queue_publisher bus_publisher config sample_decoder
      sample_decoder-Decodes sample_codec-IsFaithful taken_feed-IsTruthful hearing

Ticks-one_record_example : audit_key heard_event ≡ audit_key heard_event
Ticks-one_record_example =
    Ticks-one_record sample_codec queue_publisher bus_publisher config sample_decoder
      sample_decoder-Decodes sample_codec-IsFaithful (audit_object "audit" heard_event)
      (audit_object "audit" heard_event) taken_feed-IsTruthful hearing (Memᴰ.head refl)
      (Memᴰ.head refl) refl
