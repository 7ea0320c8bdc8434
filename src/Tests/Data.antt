-- ===== src/Tests/Data.antt =====
-- The inputs of the tests.
use velocity_dispatch.Prelude.{ℕ, [], ◌∷◌, Bool, false, none, some, done, failed}
use velocity_dispatch.Prelude.Int.{pos}
use velocity_dispatch.Float.Sample.{Sample, num, sample_float}
use velocity_dispatch.Core.Model.{Uuid, GeoPoint}
use velocity_dispatch.Core.Events.{OrderCreated}
use velocity_dispatch.Core.Codec.Sample.{sample_codec}
use velocity_dispatch.Store.{DriverRow, OrderRow, Database}
use velocity_dispatch.Api.Sqs.{OrderEventPublisher}
use velocity_dispatch.Api.Routes.{
  AppState, CreateIo, PointDto, CreateOrderRequest, DriverIo, UpdateLocationRequest,
}
use velocity_dispatch.Worker.Matching.{AssignIo, complete}
use velocity_dispatch.Worker.Eventbridge.{DispatchEventPublisher}
use velocity_dispatch.Worker.Handler.{Message, HandlerConfig, World, HandleIo}

abbrev pub point : ℕ → ℕ → GeoPoint Sample
point lat lon = record { lat = num (pos lat); lon = num (pos lon) }

abbrev pub pickup : GeoPoint Sample
pickup = point 10 10

abbrev pub dropoff : GeoPoint Sample
dropoff = point 20 20

abbrev pub radius : ℕ
radius = 60_000

-- At a distance of 12742.
abbrev pub ann : DriverRow Sample
ann = record {
  id = 1;
  name = "ann";
  lat = num (pos 11);
  lon = num (pos 10);
  status = "available";
  updated_at = pos 5;
}

-- At a distance of 50968.
abbrev pub ben : DriverRow Sample
ben = record {
  id = 2;
  name = "ben";
  lat = num (pos 10);
  lon = num (pos 12);
  status = "available";
  updated_at = pos 5;
}

-- At the pickup, on another order.
abbrev pub cem : DriverRow Sample
cem = record {
  id = 3;
  name = "cem";
  lat = num (pos 10);
  lon = num (pos 10);
  status = "busy";
  updated_at = pos 5;
}

abbrev pub order_row : OrderRow Sample
order_row = record {
  id = 7;
  pickup_lat = num (pos 10);
  pickup_lon = num (pos 10);
  dropoff_lat = num (pos 20);
  dropoff_lon = num (pos 20);
  status = "pending";
  created_at = pos 1;
}

abbrev pub db : Database Sample
db = record { drivers = ben ∷ cem ∷ ann ∷ []; orders = order_row ∷ []; assignments = [] }

abbrev pub no_locks : Uuid → Bool
no_locks _ = false

abbrev pub assign_io : AssignIo
assign_io = record {
  begin = done;
  claim = done;
  select = done;
  insert = done;
  update = done;
  finish = done;
  new_id = 9;
  tx_now = pos 6;
  now = pos 7;
  clock = λ _. pos 6;
  locked = no_locks;
}

-- The order is taken already, by ann.
abbrev pub taken_db : Database Sample
taken_db = complete assign_io 7 1 (num (pos 12_742)) db

abbrev pub handle_io : HandleIo
handle_io = record {
  assign = assign_io;
  utc_now = pos 8_000_000;
  since_epoch = some 8;
  put = record { put = done; failed_entry_count = 0 };
  delete = done;
}

-- EventBridge is not reached.
abbrev pub failing_io : HandleIo
failing_io = record handle_io { put = record { put = failed; failed_entry_count = 0 } }

abbrev pub bus_publisher : DispatchEventPublisher
bus_publisher = record { bus_name = "bus" }

abbrev pub queue_publisher : OrderEventPublisher
queue_publisher = record { queue_url = "queue" }

abbrev pub config : HandlerConfig
config = record { sqs_queue_url = "queue"; match_radius_km = radius; environment = "test" }

abbrev pub order_event : OrderCreated Sample
order_event = record { order_id = 7; pickup = pickup; dropoff = dropoff; created_at = pos 1 }

abbrev pub order_message : Message
order_message = record {
  body = some (sample_codec.order_to_string order_event);
  receipt_handle = some "handle";
}

abbrev pub world : World Sample
world = record { db = db; bus = []; deleted = []; printed = [] }

abbrev pub app : AppState Sample
app = record { db = db; sent = []; publisher = queue_publisher }

abbrev pub create_io : CreateIo
create_io = record {
  new_id = 8;
  now = pos 2_345;
  stored_at = pos 2_000;
  insert = done;
  publish = done;
}

abbrev pub dto : ℕ → ℕ → PointDto Sample
dto lat lon = record { lat = num (pos lat); lon = num (pos lon) }

abbrev pub order_request : CreateOrderRequest Sample
order_request = record { pickup = dto 10 10; dropoff = dto 20 20 }

-- The pickup is north of the pole.
abbrev pub bad_request : CreateOrderRequest Sample
bad_request = record { pickup = dto 91 0; dropoff = dto 20 20 }

abbrev pub driver_io : DriverIo
driver_io = record { new_id = 4; now = pos 3; upsert = done }

abbrev pub report : UpdateLocationRequest Sample
report = record { location = dto 12 12; status = none }
