-- ===== src/Api/Routes/Queries.antt =====
-- Reading back what the handlers wrote, and the replies to failures.
use velocity_dispatch.Prelude.{
  ◌≡◌, ◌≢◌, ◌↔◌, inl, inr, Option-cases, refl, false, Option, none, some, ok, Outcome, done, failed,
  lost, arith, ==_refl,
}
use velocity_dispatch.Core.Model.{
  DateTime, Uuid, OrderStatus, pending, assigned, picked_up, delivered, cancelled, DriverStatus,
  available, busy, offline, order_status_name, driver_status_name, Order,
}
use velocity_dispatch.Store.{Database, OrderRow, SqlError, row_of, has, row_of-append}
use velocity_dispatch.Api.Db.{
  order_key, row_of_order, order_of_row, parse_order_status, parse_driver_status, status_str,
  insert_order, insert_order_row, get_order, health_check,
}
use velocity_dispatch.Api.Error.{database, fixed}
use velocity_dispatch.Api.Routes.Defs.{
  AppState, HttpResponse, reply, answer, error_body, order_body, order_response, error_response,
  health, get_order_route,
}

parse_order_status-name : (s : OrderStatus) → parse_order_status (order_status_name s) ≡ s
unfolding parse_order_status
parse_order_status-name pending = refl
parse_order_status-name assigned = refl
parse_order_status-name picked_up = refl
parse_order_status-name delivered = refl
parse_order_status-name cancelled = refl

parse_driver_status-str :
    (d : DriverStatus)
    → (parse_driver_status (status_str d) ≡ d) × (status_str d ≡ driver_status_name d)
unfolding parse_driver_status
parse_driver_status-str available = (refl, refl)
parse_driver_status-str busy = (refl, refl)
parse_driver_status-str offline = (refl, refl)

-- Each status is read back from the column as it was written, and the names of the drivers' statuses
-- on the wire are those of the column.
pub parse-status_name :
    (s : OrderStatus) (d : DriverStatus)
    → (parse_order_status (order_status_name s) ≡ s)
      × (parse_driver_status (status_str d) ≡ d)
      × (status_str d ≡ driver_status_name d)
parse-status_name s d =
    (parse_order_status-name s, (parse_driver_status-str d).0, (parse_driver_status-str d).1)

module _ {F : Type 0} where
  -- A pending order with a fresh id is read back as it was inserted, with the time that the column
  -- keeps of its own.
  pub get_order-insert_order :
      (o : Order F) (stored : DateTime) (db : Database F)
      → o.status ≡ pending
      → has order_key o.id db.orders ≡ false
      → (get_order done o.id (insert_order done stored o db).1).0
        ≡ ok (some (record o { created_at = stored }))
  unfolding get_order insert_order insert_order_row parse_order_status
  get_order-insert_order o stored db p new = rw new (
      rw (row_of-append order_key o.id db.orders (row_of_order stored o))
        (rw (new, ==_refl o.id) (rw (← p) refl)))

  -- What a client should see of an order: by whether the database answers, and the stored row.
  abbrev pub shown : Outcome → Option (OrderRow F) → HttpResponse F
  shown done (some row) = reply 200 (order_body (order_response (order_of_row row)))
  shown done none = reply 404 (error_body (fixed "resource not found"))
  shown _ row = reply 500 (error_body (fixed "internal server error"))

  -- `GET /orders/{id}` answers 200 with the stored row, 404 where the database answers and has no
  -- such order, and 500 with a fixed text where it does not answer. It changes nothing.
  pub get_order_route_lem :
      (io : Outcome) (id : Uuid) (s : AppState F)
      → let (r, t) = get_order_route io id s in
        (answer r ≡ shown io (row_of order_key id s.db.orders)) × (t ≡ s)
  unfolding get_order_route get_order error_response
  get_order_route_lem failed id s = (refl, refl)
  get_order_route_lem lost id s = (refl, refl)
  get_order_route_lem done id s = elim (Option-cases (row_of order_key id s.db.orders)) [
    | inl h ↦ rw h (refl, refl)
    | inr (row, h) ↦ rw h (refl, refl)
  ]

  -- No error of the database shows in a response: all give the same one.
  pub error_response_hides :
      (d e : SqlError) → error_response {F = F} (database d) ≡ error_response (database e)
  unfolding error_response
  error_response_hides d e = refl

  -- The probe answers 200 exactly when the query came back in time, and else 503. It changes nothing.
  pub health_iff :
      (io : Option Outcome) (s : AppState F)
      → let (r, t) = health io s in
        ((r.status ≡ 200) ↔ (io ≡ some done)) × ((r.status ≡ 503) ↔ (io ≢ some done)) × (t ≡ s)
  unfolding health health_check
  health_iff none s = ground arith
  health_iff (some done) s = ground arith
  health_iff (some failed) s = ground arith
  health_iff (some lost) s = ground arith
