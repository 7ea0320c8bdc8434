-- ===== src/Tests/WorkerTests.antt =====
-- Attempts and deliveries.
use velocity_dispatch.Prelude.{
  ◌+◌, ◌≤◌, Bool, true, false, count, List, arith, ◌≡◌, refl, ◌⊎◌, [], ◌∷◌, none, some, ok, err,
  String,
}
use velocity_dispatch.Prelude.Int.{pos}
use velocity_dispatch.Float.Sample.{Sample, num, sample_float, Sample-IsOrdered}
use velocity_dispatch.Core.Model.{Driver, available}
use velocity_dispatch.Core.Events.{OrderCreated, DispatchAssigned}
use velocity_dispatch.Core.Geo.{nearest_driver, haversine_km}
use velocity_dispatch.Core.Codec.Sample.{sample_codec}
use velocity_dispatch.Store.{DriverRow, Database, SqlError}
use velocity_dispatch.Worker.Db.{
  claim_order_for_assignment, available_drivers_for_update, insert_assignment, set_driver_busy,
}
use velocity_dispatch.Worker.Matching.{
  already_handled, AssignIo, aws, assigned, already_handled, no_driver_available, sql, event,
  complete, assign_order, match_order, settle, take_driver, record_assignment, IsAttempt, Chose,
  IsBest, holds, assign_order-IsAttempt, complete-not-Pending, assign_order_once,
  assign_order_assigns, assign_order-IsBest, concurrent_attempt_starves,
}
use velocity_dispatch.Worker.Handler.{
  Message, World, handle_message, redeliver, Settled, handle_message_acknowledges,
  redeliver_settled, failed_publish_loses_event,
}
use velocity_dispatch.Worker.Poll.{
  PollState, receives, spawns, Polls, here, next, begin_polling, size,
}
use velocity_dispatch.Worker.Poll.Bounds.{Polls-bounds, Polls-stuck}
use velocity_dispatch.Worker.Eventbridge.{publish}
use velocity_dispatch.Tests.Data.{
  point, pickup, cem, radius, order_row, db, taken_db, assign_io, handle_io, failing_io,
  bus_publisher, config, order_event, order_message, world,
}

assign_order-IsAttempt_example :
    IsAttempt assign_io 7 pickup radius db (assign_order assign_io 7 pickup radius db)
assign_order-IsAttempt_example = assign_order-IsAttempt assign_io 7 pickup radius db (refl, tt)

assign_order_once_example :
    let (r, t) = assign_order assign_io 7 pickup radius taken_db in
    (t ≡ taken_db) × ((r ≡ ok already_handled) ⊎ ((x : SqlError) × (r ≡ err (sql x))))
assign_order_once_example =
    assign_order_once assign_io 7 pickup radius taken_db (refl, tt)
      (complete-not-Pending assign_io 7 1 (num (pos 12_742)) db)

abbrev nearest : Driver Sample × Sample
nearest = (
  record { id = 1; name = "ann"; location = point 11 10; status = available; updated_at = pos 6 },
  num (pos 12_742),
)

abbrev expected : DispatchAssigned Sample
expected = event assign_io 7 1 (num (pos 12_742)) 9

assign_order_assigns_example :
    assign_order assign_io 7 pickup radius db
    ≡ (ok (assigned expected), complete assign_io 7 1 (num (pos 12_742)) db)
unfolding nearest_driver haversine_km
assign_order_assigns_example =
    assign_order_assigns assign_io 7 pickup radius db nearest
      (record {
        begin = refl;
        claim = refl;
        select = refl;
        insert = refl;
        update = refl;
        finish = refl;
      })
      (refl, tt) (order_row, refl, refl) refl refl

assign_order-IsBest_example :
    (row : DriverRow Sample) × IsBest Sample-IsOrdered assign_io pickup radius db expected row
unfolding nearest_driver haversine_km assign_order match_order settle take_driver record_assignment
    claim_order_for_assignment available_drivers_for_update insert_assignment set_driver_busy
assign_order-IsBest_example =
    assign_order-IsBest Sample-IsOrdered assign_io 7 pickup radius db expected (refl, tt) refl

-- An attempt for another order, while the first one holds both free drivers.
abbrev other_io : AssignIo
other_io = record assign_io { new_id = 10; locked = holds assign_io db }

abbrev two_orders : Database Sample
two_orders = record db { orders = order_row ∷ record order_row { id = 8 } ∷ [] }

concurrent_attempt_starves_example :
    let (r, t) = assign_order other_io 8 pickup radius two_orders in
    (t ≡ two_orders)
    × ((r ≡ ok no_driver_available)
        ⊎ (r ≡ ok already_handled)
        ⊎ ((x : SqlError) × (r ≡ err (sql x))))
unfolding holds
concurrent_attempt_starves_example =
    concurrent_attempt_starves assign_io other_io 8 pickup radius two_orders (refl, (refl, tt))
      (record { sees_held = λ id h. h; sees_locked = λ id h. cc })

handle_message_acknowledges_example :
    let t = (handle_message sample_codec handle_io bus_publisher config order_message world).1 in
    (t.deleted ≡ [])
    ⊎ (order_message.body ≡ none)
    ⊎ ((body : String) × (event : OrderCreated Sample) × (order_message.body ≡ some body)
        × (sample_codec.order_from_str body ≡ some event)
        × Settled sample_codec handle_io bus_publisher config order_message event world t)
handle_message_acknowledges_example =
    handle_message_acknowledges sample_codec handle_io bus_publisher config order_message world
      (refl, tt)

abbrev settled_world : World Sample
settled_world = record world { db = taken_db }

redeliver_settled_example :
    let t =
      redeliver sample_codec bus_publisher config order_message order_event
        (handle_io ∷ failing_io ∷ [])
        settled_world in
    (t.db ≡ taken_db) × (t.bus ≡ [])
redeliver_settled_example =
    redeliver_settled sample_codec bus_publisher config order_message order_event
      (handle_io ∷ failing_io ∷ []) settled_world (refl, tt)
      (complete-not-Pending assign_io 7 1 (num (pos 12_742)) db)

failed_publish_loses_event_example :
    let t =
      redeliver sample_codec bus_publisher config order_message order_event
        (failing_io ∷ handle_io ∷ [])
        world in
    Chose assign_io 7 pickup radius db expected t.db × (t.bus ≡ [])
unfolding nearest_driver haversine_km assign_order match_order settle take_driver record_assignment
    claim_order_for_assignment available_drivers_for_update insert_assignment set_driver_busy
    publish
failed_publish_loses_event_example =
    failed_publish_loses_event sample_codec bus_publisher config order_message order_event
      failing_io (handle_io ∷ []) world expected aws (refl, tt) refl refl refl

-- All drivers are busy.
abbrev busy_world : World Sample
busy_world = record world { db = record db { drivers = cem ∷ [] } }

-- The order's message, and one without a body.
abbrev received : List Message
received = order_message ∷ record { body = none; receipt_handle = none } ∷ []

abbrev after_receive : PollState Sample
after_receive = record (begin_polling 1 world) { messages = received; received = received }

abbrev after_spawn : PollState Sample
after_spawn = record after_receive {
  messages = record { body = none; receipt_handle = none } ∷ [];
  permits = 0;
  running = order_message ∷ [];
}

one_receive : Polls sample_codec bus_publisher config (begin_polling 1 world) after_receive
one_receive = next here (receives received refl (omega arith) refl)

one_running : Polls sample_codec bus_publisher config (begin_polling 1 world) after_spawn
one_running =
    next one_receive
      (spawns order_message (record { body = none; receipt_handle = none } ∷ []) 0 refl refl refl)

abbrev has_body : Message → Bool
has_body m = elim m.body [ none ↦ false | some _ ↦ true ]

Polls-bounds_example :
    (size after_spawn.running ≤ 1)
    × (size after_spawn.messages ≤ 10)
    × (count has_body received
        ≡ count has_body after_spawn.messages
          + count has_body after_spawn.running
          + count has_body after_spawn.ended)
Polls-bounds_example = Polls-bounds sample_codec bus_publisher config 1 world has_body one_running

-- No permit: the first messages are received, and then nothing more.
stuck_receive :
    Polls sample_codec bus_publisher config
      (begin_polling 0 world)
      (record (begin_polling 0 world) { messages = received; received = received })
stuck_receive = next here (receives received refl (omega arith) refl)

Polls-stuck_example : (world ≡ world) × (◌≡◌ {A = List Message} [] [])
Polls-stuck_example = Polls-stuck sample_codec bus_publisher config world stuck_receive
