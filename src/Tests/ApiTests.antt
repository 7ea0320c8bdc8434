-- ===== src/Tests/ApiTests.antt =====
-- Orders and drivers over HTTP.
use velocity_dispatch.Prelude.{
  failed, false, ◌↔◌, ◌≡◌, refl, ◌⊎◌, inl, [], ◌∷◌, some, ok, done, arith, List,
}
use velocity_dispatch.Prelude.Int.{pos}
use velocity_dispatch.Float.Sample.{Sample, sample_float}
use velocity_dispatch.Core.Model.{Driver, pending}
use velocity_dispatch.Core.Coordinates.{IsOnEarth}
use velocity_dispatch.Core.Codec.Sample.{sample_codec}
use velocity_dispatch.Store.{unreachable, has, DriverRow, row_of}
use velocity_dispatch.Api.Db.{insert_order, order_key, driver_key, row_of_order}
use velocity_dispatch.Api.Error.{fixed}
use velocity_dispatch.Api.Routes.{
  CreateIo, error_body, create_order_not_stored, AppState, UpdateLocationRequest, list_drivers,
  drivers_body, driver_id, get_order_route-create_order, list_drivers-update_driver_location,
  create_order, get_order_route, update_driver_location, answer, reply, order_body,
  create_order_created, create_order_refused, create_order_stored_first, message, requested,
  to_point, location_report_frees,
}
use velocity_dispatch.Tests.Data.{
  cem, order_row, db, app, create_io, order_request, bad_request, driver_io, report,
}

create_order_created_example : create_order sample_codec create_io order_request app ≡ (
  ok (reply 201 (order_body (record { id = 8; status = pending; created_at = pos 2_345 }))),
  record app {
    db = record db {
      orders = order_row ∷ row_of_order (pos 2_000) (requested create_io order_request) ∷ [];
    };
    sent = message sample_codec create_io order_request app ∷ [];
  },
)
create_order_created_example =
    create_order_created sample_codec create_io order_request app (ground arith) (ground arith) refl
      refl

create_order_refused_example :
    let (r, t) = create_order sample_codec create_io bad_request app in
    ((answer r).status ≡ 400) × (t ≡ app)
create_order_refused_example =
    create_order_refused sample_codec create_io bad_request app (inl (λ p. cc (p.north)))

abbrev unreached : CreateIo
unreached = record create_io { insert = failed }

create_order_not_stored_example :
    let (r, t) = create_order sample_codec unreached order_request app in
    (answer r ≡ reply 500 (error_body (fixed "internal server error"))) × (t.sent ≡ [])
unfolding insert_order
create_order_not_stored_example =
    create_order_not_stored sample_codec unreached order_request app unreachable (ground arith)
      (ground arith) refl

create_order_stored_first_example :
    let t = (create_order sample_codec create_io order_request app).1 in
    (t.sent ≡ [])
    ⊎ ((t.sent ≡ message sample_codec create_io order_request app ∷ [])
        × (row_of order_key 8 t.db.orders
            ≡ some (row_of_order (pos 2_000) (requested create_io order_request)))
        × IsOnEarth (to_point order_request.pickup)
        × IsOnEarth (to_point order_request.dropoff))
create_order_stored_first_example =
    create_order_stored_first sample_codec create_io order_request app

abbrev posted : AppState Sample
posted = (create_order sample_codec create_io order_request app).1

get_order_route-create_order_example : get_order_route done 8 posted ≡ (
  ok (reply 200 (order_body (record { id = 8; status = pending; created_at = pos 2_000 }))),
  posted,
)
get_order_route-create_order_example =
    get_order_route-create_order sample_codec create_io order_request app (ground arith)
      (ground arith) refl refl

-- Ann, who was free, is busy.
abbrev busy_report : UpdateLocationRequest Sample
busy_report = record report { status = some "busy" }

abbrev reported : AppState Sample
reported = (update_driver_location driver_io 1 busy_report app).1

list_drivers-update_driver_location_example :
    (ds : List (Driver Sample)) × (list_drivers done reported
      ≡ (ok (reply 200 (drivers_body ds)), reported))
    × ((has driver_id 1 ds ≡ false)
        ↔ ((busy_report.status ≡ some "busy") ⊎ (busy_report.status ≡ some "offline")))
list_drivers-update_driver_location_example =
    list_drivers-update_driver_location driver_io 1 busy_report app (refl, (refl, (refl, tt)))
      (ground arith) refl

location_report_frees_example :
    (row : DriverRow Sample) × (row_of driver_key 3
        (update_driver_location driver_io 3 report app).1.db.drivers
      ≡ some row)
    × (row.status ≡ "available")
    × (row.name ≡ "cem")
location_report_frees_example =
    location_report_frees driver_io 3 report app cem (ground arith) refl refl refl refl
