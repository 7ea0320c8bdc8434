-- ===== src/Api/Routes/Defs.antt =====
-- The handlers.
use mathlib.Core.Option.{get_or}
use velocity_dispatch.Prelude.{
  ℕ, List, Option, none, some, String, Result, ok, err, Outcome, ◌>>=◌, ◌>>◌, return, map_err,
  if◌then◌else◌,
}
use velocity_dispatch.Float.{Float}
use velocity_dispatch.Core.Model.{
  Uuid, DateTime, CoreError, GeoPoint, Order, OrderStatus, pending, Driver, DriverStatus, available,
  busy, offline, new_point,
}
use velocity_dispatch.Core.Events.{OrderCreated}
use velocity_dispatch.Core.Codec.{Codec}
use velocity_dispatch.Store.{Database, SqlError, ◌is◌}
use velocity_dispatch.Api.Db.{
  insert_order, get_order, upsert_driver, list_available_drivers, health_check,
}
use velocity_dispatch.Api.Error.{
  ApiError, core, database, not_found, ErrorText, status_code, error_message,
}
use velocity_dispatch.Api.Sqs.{SendMessage, OrderEventPublisher, publish}

pub record PointDto (F : Type 0) : Type 0 where
  pub lat : F
  pub lon : F

pub record CreateOrderRequest (F : Type 0) : Type 0 where
  pub pickup : PointDto F
  pub dropoff : PointDto F

pub record RegisterDriverRequest (F : Type 0) : Type 0 where
  pub id : Option Uuid
  pub name : String
  pub location : PointDto F

pub record UpdateLocationRequest (F : Type 0) : Type 0 where
  pub location : PointDto F
  pub status : Option String

pub record OrderResponse : Type 0 where
  pub id : Uuid
  pub status : OrderStatus
  pub created_at : DateTime

pub data Body (F : Type 0) : Type 0 where
  order_body : OrderResponse → Body F
  driver_body : Driver F → Body F
  drivers_body : List (Driver F) → Body F
  error_body : ErrorText F → Body F
  -- `{"status": …}`, with the reason where there is one
  health_body : String → Option String → Body F

pub record HttpResponse (F : Type 0) : Type 0 where
  pub status : ℕ
  pub body : Body F

pub record AppState (F : Type 0) : Type 0 where
  pub db : Database F
  pub sent : List SendMessage
  pub publisher : OrderEventPublisher

pub record CreateIo : Type 0 where
  pub new_id : Uuid
  pub now : DateTime
  -- what the column `created_at` keeps of `now`
  pub stored_at : DateTime
  pub insert : Outcome
  pub publish : Outcome

pub record DriverIo : Type 0 where
  pub new_id : Uuid
  pub now : DateTime
  pub upsert : Outcome

-- The status that a location update asks for.
unfoldable pub requested_status : Option String → DriverStatus
requested_status none = available
requested_status (some s) =
    if s is "busy" then busy else if s is "offline" then offline else available

module _ {F : Type 0} where
  abbrev pub new_order : CreateIo → GeoPoint F → GeoPoint F → Order F
  new_order io pickup dropoff = record {
    id = io.new_id;
    pickup = pickup;
    dropoff = dropoff;
    status = pending;
    created_at = io.now;
  }

  abbrev pub event_of : Order F → OrderCreated F
  event_of order = record {
    order_id = order.id;
    pickup = order.pickup;
    dropoff = order.dropoff;
    created_at = order.created_at;
  }

  abbrev pub order_response : Order F → OrderResponse
  order_response o = record { id = o.id; status = o.status; created_at = o.created_at }

  abbrev pub reply : ℕ → Body F → HttpResponse F
  reply status body = record { status = status; body = body }

  -- `error_response`: what the framework makes of a handler's error.
  unfoldable pub error_response : ApiError F → HttpResponse F
  unfolding status_code error_message
  error_response e = reply (status_code e) (error_body (error_message e))

  abbrev pub answer : Result (ApiError F) (HttpResponse F) → HttpResponse F
  answer (ok r) = r
  answer (err e) = error_response e

  -- A call of a function of db.rs, with `?`.
  abbrev pub on_db :
      {A : Type 0}
      → (Database F → Result SqlError A × Database F)
      → AppState F
      → Result (ApiError F) A × AppState F
  on_db m s = let (r, db) = map_err database m s.db in (r, record s { db = db })

  -- A result of the core, with `?`.
  abbrev pub on_core :
      {A : Type 0} → Result (CoreError F) A → AppState F → Result (ApiError F) A × AppState F
  on_core (ok a) s = (ok a, s)
  on_core (err e) s = (err (core e), s)

  abbrev pub ok_or_not_found :
      {A : Type 0} → Option A → AppState F → Result (ApiError F) A × AppState F
  ok_or_not_found (some a) s = (ok a, s)
  ok_or_not_found none s = (err not_found, s)

  unfoldable pub get_order_route :
      Outcome → Uuid → AppState F → Result (ApiError F) (HttpResponse F) × AppState F
  get_order_route io id = do
    found ← on_db (get_order io id)
    order ← ok_or_not_found found
    return (reply 200 (order_body (order_response order)))

  unfoldable pub list_drivers :
      Outcome → AppState F → Result (ApiError F) (HttpResponse F) × AppState F
  list_drivers io = do
    drivers ← on_db (list_available_drivers io)
    return (reply 200 (drivers_body drivers))

  -- `none` is the timeout of 2 seconds.
  unfoldable pub health : Option Outcome → AppState F → HttpResponse F × AppState F
  health none s = (reply 503 (health_body "unhealthy" (some "database timeout")), s)
  health (some io) s =
      let (r, db) = health_check io s.db in
      (
        elim r [
          | ok _ ↦ reply 200 (health_body "ok" none)
          | err _ ↦ reply 503 (health_body "unhealthy" (some "database unreachable"))
        ],
        record s { db = db },
      )

module _ {F : Type 0} ⦃f : Float F⦄ where
  abbrev pub point_of : PointDto F → Result (CoreError F) (GeoPoint F)
  point_of p = new_point p.lat p.lon

  unfoldable pub register_driver :
      DriverIo
      → RegisterDriverRequest F
      → AppState F
      → Result (ApiError F) (HttpResponse F) × AppState F
  register_driver io body = do
    location ← on_core (point_of body.location)
    let id = get_or body.id io.new_id
    driver ← on_db (upsert_driver io.upsert io.now id body.name location available)
    return (reply 201 (driver_body driver))

  unfoldable pub update_driver_location :
      DriverIo
      → Uuid
      → UpdateLocationRequest F
      → AppState F
      → Result (ApiError F) (HttpResponse F) × AppState F
  update_driver_location io id body = do
    location ← on_core (point_of body.location)
    let status = requested_status body.status
    driver ← on_db (upsert_driver io.upsert io.now id "" location status)
    return (reply 200 (driver_body driver))

  module _ (codec : Codec F) where
    -- `if let Err(err) = state.publisher.publish(&event).await`: the error is logged and dropped.
    abbrev pub try_publish :
        Outcome → OrderCreated F → AppState F → Result (ApiError F) (Unit {0}) × AppState F
    try_publish io event s =
        (ok tt, record s { sent = (publish codec io s.publisher event s.sent).1 })

    unfoldable pub create_order :
        CreateIo
        → CreateOrderRequest F
        → AppState F
        → Result (ApiError F) (HttpResponse F) × AppState F
    create_order io body = do
      pickup ← on_core (point_of body.pickup)
      dropoff ← on_core (point_of body.dropoff)
      let order = new_order io pickup dropoff
      on_db (insert_order io.insert io.stored_at order)
      try_publish io.publish (event_of order)
      return (reply 201 (order_body (order_response order)))
