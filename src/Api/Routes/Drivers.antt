-- ===== src/Api/Routes/Drivers.antt =====
-- The handlers of drivers: what an upsert stores, and what follows for a driver that reports its
-- position.
use velocity_dispatch.Prelude.{
  ◌≡◌, ◌≢◌, ◌⊎◌, ℕ-cases, refl, ap, inl, inr, true, List, Option, none, some, String, ok, done,
  arith, ==_refl, Bool-cases, Option-cases,
}
use velocity_dispatch.Float.{Float}
use velocity_dispatch.Core.Model.{Uuid, DateTime, GeoPoint, DriverStatus, available, busy, offline}
use velocity_dispatch.Core.Coordinates.{IsOnEarth, new_point_iff}
use velocity_dispatch.Store.{
  Database, DriverRow, check_driver_status, row_of, has, is_key, row_of-append, row_of-update_where,
  row_of-has, row_of-none, row_of-key, is_key_of_row,
}
use velocity_dispatch.Api.Db.{
  driver_key, driver_of_row, status_str, moved, upsert_rows, upsert_driver, upsert_driver_row,
}
use velocity_dispatch.Api.Routes.Defs.{
  UpdateLocationRequest, DriverIo, AppState, reply, driver_body, update_driver_location,
  requested_status,
}

pub check-status_str : (status : DriverStatus) → check_driver_status (status_str status) ≡ true
check-status_str available = refl
check-status_str busy = refl
check-status_str offline = refl

module _ {F : Type 0} where
  -- The row that an upsert leaves, from the one that was there.
  abbrev pub upserted : DriverRow F → Option (DriverRow F) → DriverRow F
  upserted r none = r
  upserted r (some old) = moved r old

  pub upsert_rows_self :
      (r : DriverRow F) (rows : List (DriverRow F))
      → row_of driver_key r.id (upsert_rows r rows)
        ≡ some (upserted r (row_of driver_key r.id rows))
  unfolding upsert_rows
  upsert_rows_self r rows = elim (Bool-cases (has driver_key r.id rows)) [
    | inl old ↦ rw old (
        let (x, found) = row_of-has driver_key r.id rows old in
        rw (row_of-update_where driver_key (is_key driver_key r.id) (moved r) (λ _. refl) r.id rows)
          (rw found (rw (is_key_of_row driver_key r.id rows x found))))
    | inr new ↦ rw new (
        rw (row_of-append driver_key r.id rows r)
          (rw (new, row_of-none driver_key r.id rows new) (rw (==_refl r.id))))
  ]

  pub upsert_rows_other :
      (k : Uuid) (r : DriverRow F) (rows : List (DriverRow F))
      → k ≢ r.id
      → row_of driver_key k (upsert_rows r rows) ≡ row_of driver_key k rows
  unfolding upsert_rows
  upsert_rows_other k r rows ne = elim (Bool-cases (has driver_key r.id rows)) [
    | inl old ↦ rw old (
        rw (row_of-update_where driver_key (is_key driver_key r.id) (moved r) (λ _. refl) k rows)
          (elim (Option-cases (row_of driver_key k rows)) [
            | inl no_row ↦ rw no_row
            | inr (x, found) ↦ rw found (ground (arith, row_of-key driver_key k rows x found))
          ]))
    | inr new ↦ rw new (
        rw (row_of-append driver_key k rows r) (elim (Bool-cases (has driver_key k rows)) [
          | inl there ↦ rw there
          | inr not_there ↦
              rw not_there (rw (row_of-none driver_key k rows not_there) (ground arith))
        ]))
  ]

  -- What `POST /drivers` and the location updates send.
  abbrev pub sent_row : DateTime → Uuid → String → GeoPoint F → DriverStatus → DriverRow F
  sent_row now id name location status = record {
    id = id;
    name = name;
    lat = location.lat;
    lon = location.lon;
    status = status_str status;
    updated_at = now;
  }

  -- A done upsert succeeds. It returns the row that it stores: the place, the status and the time
  -- that were sent, under the old name if the driver was known and else the name sent. The row of any
  -- other driver, the orders and the assignments are as before.
  pub upsert_driver_lem :
      (now : DateTime) (id : Uuid) (name : String) (location : GeoPoint F) (status : DriverStatus)
      (db : Database F) (k : Uuid)
      → let row =
          upserted (sent_row now id name location status) (row_of driver_key id db.drivers) in
        let (r, t) = upsert_driver done now id name location status db in
        (r ≡ ok (driver_of_row row))
        × (row_of driver_key id t.drivers ≡ some row)
        × ((k ≡ id) ⊎ (row_of driver_key k t.drivers ≡ row_of driver_key k db.drivers))
        × (t.orders ≡ db.orders)
        × (t.assignments ≡ db.assignments)
  unfolding upsert_driver upsert_driver_row
  upsert_driver_lem now id name location status db k =
      let r = sent_row now id name location status in
      rw (check-status_str status) (
        rw (upsert_rows_self r db.drivers),
        upsert_rows_self r db.drivers,
        elim (ℕ-cases k id) [ inl e ↦ inl e | inr ne ↦ inr (upsert_rows_other k r db.drivers ne) ],
        refl,
        refl,
      )

module _ {F : Type 0} ⦃f : Float F⦄ where
  -- `POST /drivers/{id}/location` at a point on Earth, when the upsert is done, stores the driver
  -- with the status that the request asks for, whatever the stored status was, and replies with the
  -- row that it stored.
  pub update_driver_location_stores :
      (io : DriverIo) (id : Uuid) (body : UpdateLocationRequest F) (s : AppState F)
      → IsOnEarth (record { lat = body.location.lat; lon = body.location.lon })
      → io.upsert ≡ done
      → let location : GeoPoint F = record { lat = body.location.lat; lon = body.location.lon } in
        let new = sent_row io.now id "" location (requested_status body.status) in
        let row = upserted new (row_of driver_key id s.db.drivers) in
        let (r, t) = update_driver_location io id body s in
        (r ≡ ok (reply 200 (driver_body (driver_of_row row))))
        × (row_of driver_key id t.db.drivers ≡ some row)
  unfolding update_driver_location
  update_driver_location_stores io id body s p d =
      let location : GeoPoint F = record { lat = body.location.lat; lon = body.location.lon } in
      let facts = upsert_driver_lem io.now id "" location (requested_status body.status) s.db id in
      rw ((new_point_iff _ _).0.1 p) (rw d (rw facts.0 (refl, facts.1)))

  -- A stored driver who is busy and reports a position on Earth with no status is stored as
  -- available, under the same name, once the upsert is done.
  pub location_report_frees :
      (io : DriverIo) (id : Uuid) (body : UpdateLocationRequest F) (s : AppState F)
      (old : DriverRow F)
      → IsOnEarth (record { lat = body.location.lat; lon = body.location.lon })
      → io.upsert ≡ done
      → body.status ≡ none
      → row_of driver_key id s.db.drivers ≡ some old
      → old.status ≡ "busy"
      → (row : DriverRow F) × (row_of driver_key id
            (update_driver_location io id body s).1.db.drivers
          ≡ some row)
        × (row.status ≡ "available")
        × (row.name ≡ old.name)
  unfolding requested_status
  location_report_frees io id body s old p d no_status found was_busy =
      let location : GeoPoint F = record { lat = body.location.lat; lon = body.location.lon } in
      let stored = (update_driver_location_stores io id body s p d).1 in
      (
        moved (sent_row io.now id "" location (requested_status body.status)) old,
        rw found at stored,
        ap (λ o. status_str (requested_status o)) no_status,
        refl,
      )
