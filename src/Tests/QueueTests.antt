-- ===== src/Tests/QueueTests.antt =====
-- A message that is received once in vain, under a policy of one reception, and given up.
use velocity_dispatch.Prelude.{
  sym, ◌∙◌, inr, append-ne, ◌++◌, some, ◌+◌, ◌≡◌, refl, [], ◌∷◌, failed, arith,
}
use velocity_dispatch.Float.Sample.{Sample, sample_float}
use velocity_dispatch.Core.Model.{new_point}
use velocity_dispatch.Core.Codec.Sample.{sample_codec, sample_codec-IsFaithful, print_assigned}
use velocity_dispatch.Api.Sqs.{publish}
use velocity_dispatch.Api.Db.{insert_order, insert_order_row, row_of_order}
use velocity_dispatch.Api.Routes.{create_order, requested}
use velocity_dispatch.Worker.Handler.{delete_request, HandleIo, handle_message, handle_event}
use velocity_dispatch.Worker.Matching.{Pending, assign_order}
use velocity_dispatch.System.Run.{world_of}
use velocity_dispatch.System.Queue.{
  deletes, Mail, letter, again, requests, handles, Receives, leaves, redrives, sends, receives,
  Posts, nothing, then_post,
}
use velocity_dispatch.System.Queue.Kept.{Posts-IsTracked}
use velocity_dispatch.System.Queue.Tracked.{IsKept, IsTracked}
use velocity_dispatch.System.Queue.Drains.{
  served_deletes, receptions, messages_sent, size, IsServed, Posts-drains,
}
use velocity_dispatch.System.Queue.Serves.{waiting_order_settles}
use velocity_dispatch.System.Writes.{IsBalanced}
use velocity_dispatch.System.Lifecycle.{board, settled}
use velocity_dispatch.Store.{IsSchema}
use velocity_dispatch.Core.Geo.{nearest_driver, haversine_km}
use velocity_dispatch.Worker.Eventbridge.{entry_of}
use velocity_dispatch.Tests.AnnounceTests.{after_order, wide, parsed, ann_far, ann_wins}
use velocity_dispatch.Tests.Data.{
  assign_io, handle_io, bus_publisher, queue_publisher, config, create_io, order_request,
}
use velocity_dispatch.Tests.SystemTests.{first_state, first_state-IsSound, sent_message}

abbrev empty_queue : Mail Sample
empty_queue = record { state = first_state; queue = []; dead = []; unsent = [] }

empty_queue-IsKept : IsKept sample_codec empty_queue
empty_queue-IsKept = record {
  schema = first_state-IsSound.schema;
  tracked = λ id (row, found, p). cc;
}

abbrev after_request : Mail Sample
after_request = record empty_queue {
  state =
      requests sample_codec queue_publisher bus_publisher config create_io order_request
        empty_queue;
  queue = letter sent_message ∷ [];
}

-- The database is not reached.
abbrev vain_io : HandleIo
vain_io = record handle_io { assign = record assign_io { begin = failed } }

abbrev after_vain : Mail Sample
after_vain = record after_request {
  state =
      handles sample_codec queue_publisher bus_publisher config vain_io sent_message "handle"
        after_request;
  queue = again (letter sent_message) ∷ [];
}

abbrev given_up : Mail Sample
given_up = record after_vain { queue = []; dead = sent_message ∷ [] }

course : Posts sample_codec queue_publisher bus_publisher config 1 empty_queue given_up
unfolding create_order new_point insert_order insert_order_row publish handle_message handle_event
    assign_order
course =
    then_post
      (then_post (then_post nothing (sends create_io order_request refl refl)) (
        receives
          (leaves vain_io "handle" [] [] (letter sent_message) refl (omega arith) refl refl)))
      (receives (redrives [] [] (again (letter sent_message)) refl refl refl))

still-Pending : Pending 8 given_up.state.db
unfolding create_order new_point insert_order insert_order_row publish handle_message handle_event
    assign_order
still-Pending = (row_of_order create_io.stored_at (requested create_io order_request), refl, refl)

Posts-IsTracked_example : IsTracked sample_codec given_up 8
Posts-IsTracked_example =
    Posts-IsTracked sample_codec queue_publisher bus_publisher config sample_codec-IsFaithful 8
      empty_queue-IsKept course still-Pending

-- Order 8 waits; its message was received once in vain.
abbrev waiting : Mail Sample
waiting = record empty_queue { state = after_order; queue = again (letter sent_message) ∷ [] }

after_order-IsSchema : IsSchema after_order.db
unfolding create_order new_point insert_order insert_order_row publish
after_order-IsSchema = record {
  order_keys = (refl, tt);
  driver_keys = (refl, (refl, (refl, tt)));
  assignment_keys = tt;
  order_checks = (refl, tt);
  driver_checks = (refl, (refl, (refl, tt)));
  references = tt;
}

after_order-IsBalanced : IsBalanced after_order.db
unfolding create_order new_point insert_order insert_order_row publish
after_order-IsBalanced id = ground arith

waiting-Pending : Pending 8 after_order.db
unfolding create_order new_point insert_order insert_order_row publish
waiting-Pending = (row_of_order create_io.stored_at (requested create_io order_request), refl, refl)

waiting_order_settles_example :
    (t : Mail Sample) × Receives sample_codec queue_publisher bus_publisher wide 2 waiting t
    × (board t.state.db 8 ≡ settled (some 1))
    × (t.queue ≡ [])
    × (t.state.bus ≡ after_order.bus ++ entry_of bus_publisher (print_assigned ann_wins) ∷ [])
unfolding nearest_driver haversine_km create_order new_point insert_order insert_order_row publish
waiting_order_settles_example =
    waiting_order_settles sample_codec queue_publisher bus_publisher wide 2 waiting handle_io
      "handle" (print_assigned ann_wins) [] [] (again (letter sent_message)) parsed ann_far
      after_order-IsSchema after_order-IsBalanced refl (omega arith) refl waiting-Pending
      (record {
        begin = refl;
        claim = refl;
        select = refl;
        insert = refl;
        update = refl;
        finish = refl;
      })
      refl refl refl refl refl

-- The message is received once more, and its order settled.
abbrev served : Mail Sample
served = record waiting {
  state =
      handles sample_codec queue_publisher bus_publisher wide handle_io sent_message "handle"
        waiting;
  queue = [];
}

waiting-IsServed :
    IsServed sample_codec queue_publisher bus_publisher wide handle_io sent_message after_order.db
unfolding nearest_driver haversine_km create_order new_point insert_order insert_order_row publish
waiting-IsServed = record {
  assign = record {
    begin = refl;
    claim = refl;
    select = refl;
    insert = refl;
    update = refl;
    finish = refl;
  };
  put = refl;
  delete = refl;
  order = parsed;
  parses = refl;
  outcome = inr (waiting-Pending, refl, (ann_far, print_assigned ann_wins, refl, refl));
}

served_deleted : ¬ (served.state.deleted ≡ waiting.state.deleted)
served_deleted h = append-ne after_order.deleted (delete_request wide "handle") (
    sym (
      served_deletes sample_codec queue_publisher bus_publisher wide handle_io sent_message "handle"
        (world_of after_order) after_order-IsSchema waiting-IsServed)
    ∙ h)

abbrev serving : Posts sample_codec queue_publisher bus_publisher wide 2 waiting served
serving = then_post nothing (
    receives (
      deletes handle_io "handle" [] [] (again (letter sent_message)) refl (omega arith)
        served_deleted refl))

Posts-drains_example :
    receptions sample_codec queue_publisher bus_publisher wide serving + size served.queue
    ≡ size waiting.queue + messages_sent sample_codec queue_publisher bus_publisher wide serving
Posts-drains_example =
    Posts-drains sample_codec queue_publisher bus_publisher wide serving after_order-IsSchema
      (tt, waiting-IsServed)
