-- ===== src/Tests/SystemTests.antt =====
-- A history of the system, and the lambda under a repeated delivery.
use velocity_dispatch.Prelude.{◌≡◌, ◌≤◌, refl, [], ◌∷◌, some, ok, count, done, Memᴰ}
use velocity_dispatch.Prelude.Int.{pos}
use velocity_dispatch.Float.Sample.{Sample, num, sample_float}
use velocity_dispatch.Core.Model.{new_point}
use velocity_dispatch.Api.Sqs.{SendMessage, publish}
use velocity_dispatch.Api.Db.{insert_order, insert_order_row}
use velocity_dispatch.Core.Events.{DispatchAssigned}
use velocity_dispatch.Core.Codec.Sample.{sample_codec, sample_codec-IsFaithful}
use velocity_dispatch.Api.Routes.{create_order, message}
use velocity_dispatch.Worker.Handler.{
  HandleIo, handle_message, handle_event as worker_handle_event, conclude, delete_message,
}
use velocity_dispatch.Worker.Matching.{event}
use velocity_dispatch.System.Writes.{of_order}
use velocity_dispatch.System.Run.{
  State, creates, delivers, Reach, here, next, api_of, after_api, world_of, after_worker, delivery,
}
use velocity_dispatch.System.Sound.{IsSound, Reach-IsSound, Reach-assigned_once}
use velocity_dispatch.System.Lifecycle.{board, Events}
use velocity_dispatch.System.Lifecycle.Simulates.{Reach-Events}
use velocity_dispatch.Lambda.Defs.{Sinks, LambdaIo, handle_event, publish_request, processed}
use velocity_dispatch.Lambda.Audit.{redelivery_notifies}
use velocity_dispatch.Tests.Data.{
  db, assign_io, handle_io, failing_io, bus_publisher, queue_publisher, config, create_io,
  order_request,
}

abbrev pub first_state : State Sample
first_state = record {
  db = record db { orders = [] };
  sent = [];
  bus = [];
  deleted = [];
  printed = [];
}

pub first_state-IsSound : IsSound sample_codec queue_publisher bus_publisher config first_state
first_state-IsSound = record {
  schema = record {
    order_keys = tt;
    driver_keys = (refl, (refl, (refl, tt)));
    assignment_keys = tt;
    order_checks = tt;
    driver_checks = (refl, (refl, (refl, tt)));
    references = tt;
  };
  balanced = λ id. refl;
  known = tt;
}

abbrev ordered : State Sample
ordered =
    after_api first_state
      (create_order sample_codec create_io order_request (api_of queue_publisher first_state)).1

abbrev pub sent_message : SendMessage
sent_message = message sample_codec create_io order_request (api_of queue_publisher first_state)

abbrev deliver : HandleIo → State Sample → State Sample
deliver io s =
    after_worker s
      (handle_message sample_codec io bus_publisher config (delivery sent_message "handle")
        (world_of s)).1

-- The first delivery assigns ann, and its event does not reach the bus.
abbrev assigned_once : State Sample
assigned_once = deliver failing_io ordered

abbrev delivered_twice : State Sample
delivered_twice = deliver handle_io assigned_once

-- An order, and a delivery of its message.
history : Reach sample_codec queue_publisher bus_publisher config first_state assigned_once
unfolding create_order new_point insert_order insert_order_row publish handle_message
    worker_handle_event conclude delete_message
history =
    next (next here (creates create_io order_request refl))
      (delivers failing_io sent_message "handle" (Memᴰ.head refl) refl)

-- The second delivery.
again : Reach sample_codec queue_publisher bus_publisher config assigned_once delivered_twice
unfolding create_order new_point insert_order insert_order_row publish handle_message
    worker_handle_event conclude delete_message
again = next here (delivers handle_io sent_message "handle" (Memᴰ.head refl) refl)

assigned_once-IsSound : IsSound sample_codec queue_publisher bus_publisher config assigned_once
assigned_once-IsSound =
    Reach-IsSound sample_codec queue_publisher bus_publisher config sample_codec-IsFaithful
      first_state-IsSound history

Reach-IsSound_example : IsSound sample_codec queue_publisher bus_publisher config delivered_twice
Reach-IsSound_example =
    Reach-IsSound sample_codec queue_publisher bus_publisher config sample_codec-IsFaithful
      assigned_once-IsSound again

Reach-assigned_once_example : count (of_order 8) delivered_twice.db.assignments ≤ 1
Reach-assigned_once_example =
    Reach-assigned_once sample_codec queue_publisher bus_publisher config sample_codec-IsFaithful 8
      assigned_once-IsSound again

Reach-Events_example : Events (board first_state.db) (board assigned_once.db)
Reach-Events_example =
    Reach-Events sample_codec queue_publisher bus_publisher config sample_codec-IsFaithful
      first_state-IsSound history

abbrev assignment : DispatchAssigned Sample
assignment = event assign_io 7 1 (num (pos 12_742)) 9

abbrev no_sinks : Sinks Sample
no_sinks = record { notified = []; objects = [] }

abbrev all_done : LambdaIo
all_done = record { publish = done; put = done }

redelivery_notifies_example :
    let first = handle_event all_done (some "audit") (some "topic") assignment no_sinks in
    let second = handle_event all_done (some "audit") (some "topic") assignment first.1 in
    (second.0 ≡ ok (processed assignment))
    × (second.1.objects ≡ first.1.objects)
    × (second.1.notified
        ≡ publish_request "topic" assignment ∷ publish_request "topic" assignment ∷ [])
redelivery_notifies_example = redelivery_notifies "audit" "topic" assignment no_sinks
