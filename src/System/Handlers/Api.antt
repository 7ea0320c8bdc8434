-- ===== src/System/Handlers/Api.antt =====
-- Each handler of dispatch-api makes one write, or none.
use velocity_dispatch.Prelude.{
  ◌++◌, [], ◌∷◌, arith, ◌≡◌, ◌⊎◌, refl, sym, inl, inr, String, Outcome, done, failed, lost,
  Bool-cases, Result-cases,
}
use mathlib.Core.Path.{subst}
use mathlib.Core.Option.{get_or}
use velocity_dispatch.Float.{Float}
use velocity_dispatch.Core.Model.{Uuid, DateTime, GeoPoint, Order, DriverStatus, available}
use velocity_dispatch.Core.Coordinates.{new_point_cases}
use velocity_dispatch.Core.Codec.{Codec}
use velocity_dispatch.Store.{Database, has}
use velocity_dispatch.Api.Db.{
  order_key, row_of_order, upsert_rows, insert_order, insert_order_row, upsert_driver,
  upsert_driver_row,
}
use velocity_dispatch.Api.Routes.{
  AppState, CreateIo, CreateOrderRequest, DriverIo, RegisterDriverRequest, UpdateLocationRequest,
  create_order, register_driver, update_driver_location, check-status_str, sent_row, requested,
  requested_status,
}
use velocity_dispatch.System.Writes.{Write, same, places, upserts}

module _ {F : Type 0} where
  pub insert_order-Write :
      (io : Outcome) (stored : DateTime) (o : Order F) (db : Database F)
      → Write db (insert_order io stored o db).1
  unfolding insert_order insert_order_row
  insert_order-Write failed stored o db = same refl
  insert_order-Write done stored o db = elim (Bool-cases (has order_key o.id db.orders)) [
    | inl old ↦ rw old (same refl)
    | inr new ↦ rw new (places stored o new refl)
  ]
  insert_order-Write lost stored o db = elim (Bool-cases (has order_key o.id db.orders)) [
    | inl old ↦ rw old (same refl)
    | inr new ↦ rw new (places stored o new refl)
  ]

  pub upsert_driver-Write :
      (io : Outcome) (now : DateTime) (id : Uuid) (name : String) (p : GeoPoint F)
      (status : DriverStatus) (db : Database F)
      → Write db (upsert_driver io now id name p status db).1
  unfolding upsert_driver upsert_driver_row
  upsert_driver-Write failed now id name p status db = same refl
  upsert_driver-Write done now id name p status db =
      rw (check-status_str status)
        (upserts (sent_row now id name p status) (check-status_str status) refl)
  upsert_driver-Write lost now id name p status db =
      rw (check-status_str status)
        (upserts (sent_row now id name p status) (check-status_str status) refl)

  pub insert_effect :
      (io : Outcome) (stored : DateTime) (o : Order F) (db : Database F)
      → ((insert_order io stored o db).1 ≡ db)
        ⊎ ((insert_order io stored o db).1
            ≡ record db { orders = db.orders ++ row_of_order stored o ∷ [] })
  unfolding insert_order insert_order_row
  insert_effect failed stored o db = inl refl
  insert_effect done stored o db = ground arith
  insert_effect lost stored o db = ground arith

  pub upsert_effect :
      (io : Outcome) (now : DateTime) (id : Uuid) (name : String) (p : GeoPoint F)
      (status : DriverStatus) (db : Database F)
      → ((upsert_driver io now id name p status db).1 ≡ db)
        ⊎ ((upsert_driver io now id name p status db).1
            ≡ record db { drivers = upsert_rows (sent_row now id name p status) db.drivers })
  unfolding upsert_driver upsert_driver_row
  upsert_effect failed now id name p status db = inl refl
  upsert_effect done now id name p status db = rw (check-status_str status) (inr refl)
  upsert_effect lost now id name p status db = rw (check-status_str status) (inr refl)

  upsert_driver-orders :
      (io : Outcome) (now : DateTime) (id : Uuid) (name : String) (p : GeoPoint F)
      (status : DriverStatus) (db : Database F)
      → (upsert_driver io now id name p status db).1.orders ≡ db.orders
  unfolding upsert_driver upsert_driver_row
  upsert_driver-orders failed now id name p status db = refl
  upsert_driver-orders done now id name p status db = rw (check-status_str status)
  upsert_driver-orders lost now id name p status db = rw (check-status_str status)

module _ {F : Type 0} ⦃f : Float F⦄ where
  pub register_driver-Write :
      (io : DriverIo) (body : RegisterDriverRequest F) (s : AppState F)
      → Write s.db (register_driver io body s).1.db
  unfolding register_driver
  register_driver-Write io body s = elim (new_point_cases body.location.lat body.location.lon) [
    | inr (e, _) ↦ rw e (same refl)
    | inl (e, _) ↦ rw e (
        let place : GeoPoint F = record { lat = body.location.lat; lon = body.location.lon } in
        let id = get_or body.id io.new_id in
        let written = upsert_driver-Write io.upsert io.now id body.name place available s.db in
        elim (Result-cases (upsert_driver io.upsert io.now id body.name place available s.db).0) [
          | inl (d, h) ↦ rw h written
          | inr (x, h) ↦ rw h written
        ])
  ]

  -- A request for an order leaves the database, or what the insert leaves of it.
  pub create_order_db :
      (codec : Codec F) (io : CreateIo) (body : CreateOrderRequest F) (s : AppState F)
      → let t = (create_order codec io body s).1 in
        (t.db ≡ s.db) ⊎ (t.db ≡ (insert_order io.insert io.stored_at (requested io body) s.db).1)
  unfolding create_order
  create_order_db codec io body s = elim (new_point_cases body.pickup.lat body.pickup.lon) [
    | inr (e, _) ↦ rw e (inl refl)
    | inl (e, _) ↦ rw e (elim (new_point_cases body.dropoff.lat body.dropoff.lon) [
      | inr (k, _) ↦ rw k (inl refl)
      | inl (k, _) ↦
          rw k
            (elim (Result-cases (insert_order io.insert io.stored_at (requested io body) s.db).0) [
              | inl (_, h) ↦ rw h (inr refl)
              | inr (x, h) ↦ rw h (inr refl)
            ])
    ])
  ]

  pub create_order-Write :
      (codec : Codec F) (io : CreateIo) (body : CreateOrderRequest F) (s : AppState F)
      → Write s.db (create_order codec io body s).1.db
  create_order-Write codec io body s = elim (create_order_db codec io body s) [
    | inl e ↦ same e
    | inr e ↦
        subst (Write s.db) (sym e)
          (insert_order-Write io.insert io.stored_at (requested io body) s.db)
  ]

  pub update_driver_location-Write :
      (io : DriverIo) (id : Uuid) (body : UpdateLocationRequest F) (s : AppState F)
      → Write s.db (update_driver_location io id body s).1.db
  unfolding update_driver_location
  update_driver_location-Write io id body s =
      elim (new_point_cases body.location.lat body.location.lon) [
        | inr (e, _) ↦ rw e (same refl)
        | inl (e, _) ↦ rw e (
            let place : GeoPoint F = record { lat = body.location.lat; lon = body.location.lon } in
            let status = requested_status body.status in
            let written = upsert_driver-Write io.upsert io.now id "" place status s.db in
            elim (Result-cases (upsert_driver io.upsert io.now id "" place status s.db).0) [
              | inl (d, h) ↦ rw h written
              | inr (x, h) ↦ rw h written
            ])
      ]

  -- The handlers of drivers publish nothing, and change no order.
  pub register_driver-frame :
      (io : DriverIo) (body : RegisterDriverRequest F) (s : AppState F)
      → let t = (register_driver io body s).1 in (t.sent ≡ s.sent) × (t.db.orders ≡ s.db.orders)
  unfolding register_driver
  register_driver-frame io body s = elim (new_point_cases body.location.lat body.location.lon) [
    | inr (e, _) ↦ rw e (refl, refl)
    | inl (e, _) ↦ rw e (
        let place : GeoPoint F = record { lat = body.location.lat; lon = body.location.lon } in
        let id = get_or body.id io.new_id in
        let kept = upsert_driver-orders io.upsert io.now id body.name place available s.db in
        elim (Result-cases (upsert_driver io.upsert io.now id body.name place available s.db).0) [
          | inl (d, h) ↦ rw h (refl, kept)
          | inr (x, h) ↦ rw h (refl, kept)
        ])
  ]

  pub update_driver_location-frame :
      (io : DriverIo) (id : Uuid) (body : UpdateLocationRequest F) (s : AppState F)
      → let t = (update_driver_location io id body s).1 in
        (t.sent ≡ s.sent) × (t.db.orders ≡ s.db.orders)
  unfolding update_driver_location
  update_driver_location-frame io id body s =
      elim (new_point_cases body.location.lat body.location.lon) [
        | inr (e, _) ↦ rw e (refl, refl)
        | inl (e, _) ↦ rw e (
            let place : GeoPoint F = record { lat = body.location.lat; lon = body.location.lon } in
            let status = requested_status body.status in
            let kept = upsert_driver-orders io.upsert io.now id "" place status s.db in
            elim (Result-cases (upsert_driver io.upsert io.now id "" place status s.db).0) [
              | inl (d, h) ↦ rw h (refl, kept)
              | inr (x, h) ↦ rw h (refl, kept)
            ])
      ]
