-- ===== src/Worker/Matching/View.antt =====
-- Each statement of the transaction by its cases, and what a result of the whole says.
use mathlib.Core.Option.{some-injective}
use velocity_dispatch.Prelude.{
  ℕ, ◌≡◌, refl, ap, ◌∙◌, ◌⊎◌, inl, inr, true, false, not, ◌||◌, List, [], ◌∷◌, ◌++◌, map, some,
  Result, ok, err, Outcome, done, failed, lost, attempt_cases, Outcome-cases, arith, eq_iff, filter,
  count, Bool-cases, Option-cases, ◌==◌,
}
use velocity_dispatch.Float.{Float}
use velocity_dispatch.Core.Model.{Uuid, GeoPoint, Driver, CoreError, no_driver_in_range}
use velocity_dispatch.Core.Geo.{nearest_driver}
use velocity_dispatch.Core.Geo.Nearest.{nearest_driver-err}
use velocity_dispatch.Store.{
  Database, OrderRow, SqlError, unreachable, violation, execute, Distinct, row_of, has, count-key,
}
use velocity_dispatch.Api.Db.{order_key, driver_key}
use velocity_dispatch.Worker.Db.{
  is_pending, claimable, claimed_orders, claim_order_for_assignment, selectable, candidate,
  available_drivers_for_update, assignment_key, insert_assignment, set_driver_busy, busied_drivers,
}
use velocity_dispatch.Worker.Matching.Defs.{
  AssignOutcome, assigned, already_handled, no_driver_available, WorkerError, sql, AssignIo,
  assignment_row, record_assignment, event, take_driver, match_order,
}

module _ {F : Type 0} where
  -- The order is there, and pending.
  abbrev pub Pending : Uuid → Database F → Type 0
  Pending id db =
      (row : OrderRow F) × (row_of order_key id db.orders ≡ some row) × (row.status ≡ "pending")

  abbrev pub claimed_db : Uuid → Database F → Database F
  claimed_db id db = record db { orders = claimed_orders id db.orders }

  -- All three writes.
  abbrev pub complete : AssignIo → Uuid → Uuid → F → Database F → Database F
  complete io order_id driver_id distance_km db = record {
    drivers = busied_drivers io.tx_now driver_id db.drivers;
    orders = claimed_orders order_id db.orders;
    assignments = db.assignments ++ assignment_row io order_id driver_id distance_km ∷ [];
  }

  abbrev pub candidates : AssignIo → Database F → List (Driver F)
  candidates io db = map (candidate io.clock) (filter (selectable io.locked) db.drivers)

  pub claimed-one :
      (id : Uuid) (db : Database F)
      → Distinct order_key db.orders
      → (((count (claimable id) db.orders == 1) ≡ true) × Pending id db)
        ⊎ (((count (claimable id) db.orders == 1) ≡ false) × ¬ Pending id db)
  claimed-one id db d = elim (Option-cases (row_of order_key id db.orders)) [
    | inl no_row ↦
        rw (count-key order_key id is_pending db.orders d) (rw no_row (inr (refl, λ h. cc (h.1))))
    | inr (row, found) ↦ rw (count-key order_key id is_pending db.orders d) (
        rw found (elim (Bool-cases (is_pending row)) [
          | inl p ↦ rw p (inl (refl, (row, refl, (eq_iff row.status "pending").0 p)))
          | inr n ↦ rw n (inr (refl, λ h. absurd (not_pending h n)))
        ]))
  ]
    where
      not_pending :
          {row : OrderRow F}
          → ((r : OrderRow F) × (some row ≡ some r) × (r.status ≡ "pending"))
          → is_pending row ≡ false
          → ⊥
      not_pending {row} (r, e, p) n =
          let q : row.status ≡ "pending" =
            ap (λ (o : OrderRow F). o.status) (some-injective _ _ e) ∙ p in
          cc ((eq_iff row.status "pending").1 q)

  claim_cases :
      (io : Outcome) (id : Uuid) (db : Database F)
      → Distinct order_key db.orders
      → ((claim_order_for_assignment io id db ≡ (ok true, claimed_db id db)) × Pending id db)
        ⊎ ((claim_order_for_assignment io id db ≡ (ok false, claimed_db id db)) × ¬ Pending id db)
        ⊎ ((t : Database F) × (claim_order_for_assignment io id db ≡ (err unreachable, t)))
  unfolding claim_order_for_assignment
  claim_cases failed id db d = inr (inr (db, refl))
  claim_cases lost id db d = inr (inr (claimed_db id db, refl))
  claim_cases done id db d = elim (claimed-one id db d) [
    | inl (e, p) ↦ inl (rw e refl, p)
    | inr (e, p) ↦ inr (inl (rw e refl, p))
  ]

  select_cases :
      (io : AssignIo) (db : Database F)
      → (available_drivers_for_update io.select io.clock io.locked db ≡ (ok (candidates io db), db))
        ⊎ ((t : Database F) × (available_drivers_for_update io.select io.clock io.locked db
              ≡ (err unreachable, t)))
  unfolding available_drivers_for_update
  select_cases io db = attempt_cases io.select _ _ _

  insert_cases :
      (io : AssignIo) (order_id driver_id : Uuid) (distance_km : F) (db : Database F)
      → let a = assignment_row io order_id driver_id distance_km in
        ((execute io.insert db (insert_assignment a db)
            ≡ (ok tt, record db { assignments = db.assignments ++ a ∷ [] }))
          × (has assignment_key io.new_id db.assignments ≡ false))
        ⊎ ((e : SqlError) × (t : Database F) × (execute io.insert db (insert_assignment a db)
              ≡ (err e, t)))
  unfolding insert_assignment
  insert_cases io order_id driver_id distance_km db =
      let a = assignment_row io order_id driver_id distance_km in
      elim (attempt_cases io.insert unreachable db (insert_assignment a db)) [
        | inr (t, e) ↦ inr (unreachable, t, e)
        | inl e ↦
            rw e
              (elim (Bool-cases (
                has assignment_key a.id db.assignments
                || not (has order_key a.order_id db.orders)
                || not (has driver_key a.driver_id db.drivers))) [
                  | inl bad ↦ inr (violation, db, rw bad)
                  | inr good ↦ inl (rw good, ground arith)
                ])
      ]

  -- Both statements are done, or the pair fails.
  pub record_cases :
      (io : AssignIo) (order_id driver_id : Uuid) (distance_km : F) (db : Database F)
      → ((record_assignment io order_id driver_id distance_km db ≡ (
        ok io.new_id,
        record db {
          drivers = busied_drivers io.tx_now driver_id db.drivers;
          assignments = db.assignments ++ assignment_row io order_id driver_id distance_km ∷ [];
        },
      ))
          × (has assignment_key io.new_id db.assignments ≡ false))
        ⊎ ((e : SqlError) × (t : Database F) × (record_assignment io order_id driver_id distance_km
                db
              ≡ (err e, t)))
  unfolding record_assignment set_driver_busy
  record_cases io order_id driver_id distance_km db =
      elim (insert_cases io order_id driver_id distance_km db) [
        | inr (e, t, h) ↦ inr (e, t, rw h)
        | inl (h, new) ↦ rw h (elim (Outcome-cases io.update) [
          | inl u ↦ inl (rw u, new)
          | inr (inl u) ↦ rw u (inr (unreachable, _, refl))
          | inr (inr u) ↦ rw u (inr (unreachable, _, refl))
        ])
      ]

module _ {F : Type 0} ⦃f : Float F⦄ where
  -- What a result of the transaction's body says of the database that it began with.
  abbrev pub View :
      AssignIo
      → Uuid
      → GeoPoint F
      → ℕ
      → Database F
      → Result (WorkerError F) (AssignOutcome F) × Database F
      → Type 0
  View io id pickup radius_km db (ok (assigned e), t) =
      Pending id db
      × (has assignment_key io.new_id db.assignments ≡ false)
      × ((driver : Driver F) × (nearest_driver pickup (candidates io db) radius_km
            ≡ ok (driver, e.distance_km))
          × (e ≡ event io id driver.id e.distance_km io.new_id)
          × (t ≡ complete io id driver.id e.distance_km db))
  View io id pickup radius_km db (ok already_handled, t) = ¬ Pending id db
  View io id pickup radius_km db (ok no_driver_available, t) =
      Pending id db
      × (nearest_driver pickup (candidates io db) radius_km ≡ err (no_driver_in_range radius_km))
  View io id pickup radius_km db (err (sql e), t) = Unit
  View io id pickup radius_km db (err _, t) = ⊥

  take_driver-View :
      (io : AssignIo) (id : Uuid) (pickup : GeoPoint F) (radius_km : ℕ) (db : Database F)
      → Pending id db
      → (r : Result (CoreError F) (Driver F × F))
      → nearest_driver pickup (candidates io db) radius_km ≡ r
      → View io id pickup radius_km db (take_driver io id r (claimed_db id db))
  unfolding take_driver
  take_driver-View io id pickup radius_km db p (ok (driver, dist)) e =
      elim (record_cases io id driver.id dist (claimed_db id db)) [
        | inl (h, new) ↦ rw h (p, new, (driver, e, refl, refl))
        | inr (x, t, h) ↦ rw h tt
      ]
  take_driver-View io id pickup radius_km db p (err x) e =
      rw (nearest_driver-err pickup (candidates io db) radius_km x e)
        (p, e ∙ ap err (nearest_driver-err pickup (candidates io db) radius_km x e))

  pub match_order-View :
      (io : AssignIo) (id : Uuid) (pickup : GeoPoint F) (radius_km : ℕ) (db : Database F)
      → Distinct order_key db.orders
      → View io id pickup radius_km db (match_order io id pickup radius_km db)
  unfolding match_order
  match_order-View io id pickup radius_km db d = elim (claim_cases io.claim id db d) [
    | inl (h, p) ↦ rw h (elim (select_cases io (claimed_db id db)) [
      | inl k ↦ rw k (take_driver-View io id pickup radius_km db p _ refl)
      | inr (t, k) ↦ rw k tt
    ])
    | inr (inl (h, p)) ↦ rw h p
    | inr (inr (t, h)) ↦ rw h tt
  ]
