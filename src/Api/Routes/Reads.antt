-- ===== src/Api/Routes/Reads.antt =====
-- What a client reads after what it wrote: `GET /orders/{id}` and `GET /drivers`.
use mathlib.Core.Path.{subst}
use mathlib.Core.Option.{some-injective}
use velocity_dispatch.Prelude.{
  ◌↔◌, ◌⊎◌, String, eq_iff, ◌≡◌, ◌∙◌, sym, ap, refl, inl, inr, Bool, false, List, [], ◌∷◌, map,
  filter, Option, none, some, ok, done, arith, ==_refl, Bool-cases,
}
use velocity_dispatch.Float.{Float}
use velocity_dispatch.Core.Model.{
  Uuid, Driver, DriverStatus, available, busy, offline, pending, is_available,
}
use velocity_dispatch.Core.Coordinates.{IsOnEarth, new_point_iff}
use velocity_dispatch.Core.Codec.{Codec}
use velocity_dispatch.Store.{
  DriverRow, Distinct, Distinct-append, Distinct-update_where, row_of, row_of-append, has, is_key,
  ◌is◌,
}
use velocity_dispatch.Api.Db.{
  order_key, driver_key, driver_of_row, row_of_order, status_str, moved, upsert_rows, upsert_driver,
  upsert_driver_row, get_order, parse_order_status, list_available_drivers,
}
use velocity_dispatch.Api.Routes.Defs.{
  CreateOrderRequest, CreateIo, UpdateLocationRequest, DriverIo, AppState, reply, order_body,
  drivers_body, create_order, get_order_route, update_driver_location, list_drivers,
  requested_status,
}
use velocity_dispatch.Api.Routes.Create.{to_point, requested, create_order_created}
use velocity_dispatch.Api.Routes.Drivers.{
  check-status_str, sent_row, upserted, upsert_rows_self, update_driver_location_stores,
}

pub free-status_str : (s : DriverStatus) → (status_str s is "available") ≡ is_available s
free-status_str available = refl
free-status_str busy = refl
free-status_str offline = refl

-- The statuses that take a driver off the list.
requested_status-away :
    (status : Option String)
    → (is_available (requested_status status) ≡ false)
      ↔ ((status ≡ some "busy") ⊎ (status ≡ some "offline"))
unfolding requested_status
requested_status-away none = (λ h. cc, λ h. elim h [ inl e ↦ cc | inr e ↦ cc ])
requested_status-away (some s) = elim (Bool-cases (s is "busy")) [
  | inl b ↦ rw b (λ _. inl (ap some ((eq_iff s "busy").0 b)), λ _. refl)
  | inr b ↦ rw b (elim (Bool-cases (s is "offline")) [
    | inl o ↦ rw o (λ _. inr (ap some ((eq_iff s "offline").0 o)), λ _. refl)
    | inr o ↦ rw o (
      λ h. cc,
      λ h. elim h [
        | inl e ↦ cc ((eq_iff s "busy").1 (some-injective _ _ e))
        | inr e ↦ cc ((eq_iff s "offline").1 (some-injective _ _ e))
      ],
    )
  ])
]

module _ {F : Type 0} where
  abbrev pub driver_id : Driver F → Uuid
  driver_id d = d.id

  -- `WHERE status = 'available'`
  abbrev free : DriverRow F → Bool
  free d = d.status is "available"

  abbrev listed : List (DriverRow F) → List (Driver F)
  listed rows = map driver_of_row (filter free rows)

  listed-none :
      (id : Uuid) (rows : List (DriverRow F))
      → has driver_key id rows ≡ false
      → has driver_id id (listed rows) ≡ false
  listed-none id [] new = refl
  listed-none id (x ∷ xs) new = ground (arith, listed-none id xs)

  -- The list shows the driver of a row if the row is free.
  listed-has :
      (id : Uuid) (rows : List (DriverRow F)) (r : DriverRow F)
      → Distinct driver_key rows
      → row_of driver_key id rows ≡ some r
      → has driver_id id (listed rows) ≡ free r
  listed-has id [] r d found = cc
  listed-has id (x ∷ xs) r (new, d) found = ground (arith, listed-none id xs, listed-has id xs r d)

  pub upsert_rows-Distinct :
      (r : DriverRow F) (rows : List (DriverRow F))
      → Distinct driver_key rows
      → Distinct driver_key (upsert_rows r rows)
  unfolding upsert_rows
  upsert_rows-Distinct r rows d = elim (Bool-cases (has driver_key r.id rows)) [
    | inl old ↦
        rw old
          (Distinct-update_where driver_key (is_key driver_key r.id) (moved r) (λ _. refl) rows d)
    | inr new ↦ rw new (Distinct-append driver_key rows r new d)
  ]

  pub upserted-status :
      (r : DriverRow F) (old : Option (DriverRow F)) → (upserted r old).status ≡ r.status
  upserted-status r none = refl
  upserted-status r (some old) = refl

module _ {F : Type 0} ⦃f : Float F⦄ (codec : Codec F) where
  -- An order between two points on Earth, whose fresh id no order has, can be read once its insert is
  -- done, also where its publish failed: `GET /orders/{id}` answers 200 with the pending order and the
  -- time that the column keeps.
  pub get_order_route-create_order :
      (io : CreateIo) (body : CreateOrderRequest F) (s : AppState F)
      → IsOnEarth (to_point body.pickup)
      → IsOnEarth (to_point body.dropoff)
      → has order_key io.new_id s.db.orders ≡ false
      → io.insert ≡ done
      → let t = (create_order codec io body s).1 in
        get_order_route done io.new_id t ≡ (
          ok (
              reply 200 (
                order_body
                  (record { id = io.new_id; status = pending; created_at = io.stored_at }))),
          t,
        )
  unfolding get_order_route get_order parse_order_status
  get_order_route-create_order io body s p d new i =
      rw (create_order_created codec io body s p d new i) (
        rw
          (row_of-append order_key io.new_id s.db.orders
            (row_of_order io.stored_at (requested io body)))
          (rw (new, ==_refl io.new_id) refl))

module _ {F : Type 0} ⦃f : Float F⦄ where
  report_stored :
      (io : DriverIo) (id : Uuid) (body : UpdateLocationRequest F) (s : AppState F)
      → IsOnEarth (to_point body.location)
      → io.upsert ≡ done
      → (update_driver_location io id body s).1.db.drivers
        ≡ upsert_rows
            (sent_row io.now id "" (to_point body.location) (requested_status body.status))
            s.db.drivers
  unfolding update_driver_location upsert_driver upsert_driver_row
  report_stored io id body s p i =
      let sent = sent_row io.now id "" (to_point body.location) (requested_status body.status) in
      rw ((new_point_iff _ _).0.1 p) (
        rw (i, check-status_str (requested_status body.status))
          (rw (upsert_rows_self sent s.db.drivers) refl))

  -- Where drivers have distinct ids: after a report from a point on Earth, once its upsert is done,
  -- `GET /drivers` leaves the driver out exactly if the report says 'busy' or 'offline'. A report with
  -- no status, or with any other, puts the driver on the list.
  pub list_drivers-update_driver_location :
      (io : DriverIo) (id : Uuid) (body : UpdateLocationRequest F) (s : AppState F)
      → Distinct driver_key s.db.drivers
      → IsOnEarth (to_point body.location)
      → io.upsert ≡ done
      → let t = (update_driver_location io id body s).1 in
        (ds : List (Driver F)) × (list_drivers done t ≡ (ok (reply 200 (drivers_body ds)), t))
        × ((has driver_id id ds ≡ false)
            ↔ ((body.status ≡ some "busy") ⊎ (body.status ≡ some "offline")))
  unfolding list_drivers list_available_drivers
  list_drivers-update_driver_location io id body s distinct p i =
      let t = (update_driver_location io id body s).1 in
      let sent = sent_row io.now id "" (to_point body.location) (requested_status body.status) in
      let row = upserted sent (row_of driver_key id s.db.drivers) in
      let distinct' =
        subst (Distinct driver_key) (sym (report_stored io id body s p i))
          (upsert_rows-Distinct sent s.db.drivers distinct) in
      let shows : has driver_id id (listed t.db.drivers)
          ≡ is_available (requested_status body.status) =
        listed-has id t.db.drivers row distinct' (update_driver_location_stores io id body s p i).1
        ∙ ap (λ n. n is "available") (upserted-status sent (row_of driver_key id s.db.drivers))
        ∙ free-status_str (requested_status body.status) in
      (listed t.db.drivers, refl, rw shows (requested_status-away body.status))
