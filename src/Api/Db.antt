-- ===== src/Api/Db.antt =====
-- services/dispatch-api/src/db.rs. The statements run outside any transaction, so each takes effect
-- by itself; `io` says how the round trip to the server ends.
use mathlib.Core.Option
use velocity_dispatch.Prelude.{
  not, ◌||◌, List, [], ◌∷◌, ◌++◌, map, Option, none, some, String, Result, ok, err, Outcome, filter,
  if◌then◌else◌,
}
use velocity_dispatch.Core.Model.{
  Uuid, DateTime, GeoPoint, Order, OrderStatus, pending, assigned, picked_up, delivered, cancelled,
  Driver, DriverStatus, available, busy, offline,
}
use velocity_dispatch.Store.{
  DriverRow, OrderRow, Database, update_where, is_key, row_of, has, check_driver_status,
  check_order_status, SqlError, violation, row_not_found, execute, ◌is◌,
}

unfoldable pub parse_order_status : String → OrderStatus
parse_order_status s =
    if s is "assigned"
    then assigned
    else if s is "picked_up"
    then picked_up
    else if s is "delivered"
    then delivered
    else if s is "cancelled"
    then cancelled
    else pending

-- The `match` of `From<DriverRow> for Driver`.
unfoldable pub parse_driver_status : String → DriverStatus
parse_driver_status s = if s is "busy" then busy else if s is "offline" then offline else available

-- `status_str` of `upsert_driver`.
abbrev pub status_str : DriverStatus → String
status_str available = "available"
status_str busy = "busy"
status_str offline = "offline"

module _ {F : Type 0} where
  abbrev pub order_key : OrderRow F → Uuid
  order_key o = o.id

  abbrev pub driver_key : DriverRow F → Uuid
  driver_key d = d.id

  abbrev pub order_of_row : OrderRow F → Order F
  order_of_row r = record {
    id = r.id;
    pickup = record { lat = r.pickup_lat; lon = r.pickup_lon };
    dropoff = record { lat = r.dropoff_lat; lon = r.dropoff_lon };
    status = parse_order_status r.status;
    created_at = r.created_at;
  }

  abbrev pub driver_of_row : DriverRow F → Driver F
  driver_of_row r = record {
    id = r.id;
    name = r.name;
    location = record { lat = r.lat; lon = r.lon };
    status = parse_driver_status r.status;
    updated_at = r.updated_at;
  }

  -- The row that `insert_order` binds: the status is the literal, whatever the order says. A
  -- `TIMESTAMPTZ` is coarser than the time of an order; `stored` is what the column keeps of it.
  abbrev pub row_of_order : DateTime → Order F → OrderRow F
  row_of_order stored o = record {
    id = o.id;
    pickup_lat = o.pickup.lat;
    pickup_lon = o.pickup.lon;
    dropoff_lat = o.dropoff.lat;
    dropoff_lon = o.dropoff.lon;
    status = "pending";
    created_at = stored;
  }

  -- `INSERT INTO orders`
  unfoldable pub insert_order_row :
      OrderRow F → Database F → Result SqlError (Unit {0}) × Database F
  insert_order_row r db =
      if has order_key r.id db.orders || not (check_order_status r.status)
      then (err violation, db)
      else (ok tt, record db { orders = db.orders ++ r ∷ [] })

  unfoldable pub insert_order :
      Outcome → DateTime → Order F → Database F → Result SqlError (Unit {0}) × Database F
  insert_order io stored order db = execute io db (insert_order_row (row_of_order stored order) db)

  -- `SELECT … FROM orders WHERE id = $1`
  unfoldable pub get_order :
      Outcome → Uuid → Database F → Result SqlError (Option (Order F)) × Database F
  get_order io id db =
      execute io db (ok (Option.map order_of_row (row_of order_key id db.orders)), db)

  -- `DO UPDATE SET`: the name stays.
  abbrev pub moved : DriverRow F → DriverRow F → DriverRow F
  moved new old = record old {
    lat = new.lat;
    lon = new.lon;
    status = new.status;
    updated_at = new.updated_at;
  }

  -- `INSERT INTO drivers … ON CONFLICT (id) DO UPDATE`
  unfoldable pub upsert_rows : DriverRow F → List (DriverRow F) → List (DriverRow F)
  upsert_rows r rows =
      if has driver_key r.id rows
      then update_where (is_key driver_key r.id) (moved r) rows
      else rows ++ r ∷ []

  -- `RETURNING …`, by `fetch_one`
  abbrev pub fetch_one : Option (DriverRow F) → Result SqlError (Driver F)
  fetch_one none = err row_not_found
  fetch_one (some r) = ok (driver_of_row r)

  unfoldable pub upsert_driver_row :
      DriverRow F → Database F → Result SqlError (Driver F) × Database F
  upsert_driver_row r db =
      if not (check_driver_status r.status)
      then (err violation, db)
      else let rows = upsert_rows r db.drivers in
        (fetch_one (row_of driver_key r.id rows), record db { drivers = rows })

  -- `now` is the server's clock.
  unfoldable pub upsert_driver :
      Outcome
      → DateTime
      → Uuid
      → String
      → GeoPoint F
      → DriverStatus
      → Database F
      → Result SqlError (Driver F) × Database F
  upsert_driver io now id name location status db = execute io db (
      upsert_driver_row
        (record {
          id = id;
          name = name;
          lat = location.lat;
          lon = location.lon;
          status = status_str status;
          updated_at = now;
        })
        db)

  unfoldable pub list_available_drivers :
      Outcome → Database F → Result SqlError (List (Driver F)) × Database F
  list_available_drivers io db =
      execute io db (ok (map driver_of_row (filter (λ d. d.status is "available") db.drivers)), db)

  -- `SELECT 1`
  unfoldable pub health_check : Outcome → Database F → Result SqlError (Unit {0}) × Database F
  health_check io db = execute io db (ok tt, db)
