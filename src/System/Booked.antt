-- ===== src/System/Booked.antt =====
-- How many orders a driver can have: matching.rs gives an order to a driver whose row says
-- 'available', and marks the row 'busy' in the same transaction.
pub mod Histories
pub mod Statements
use mathlib.Core.Path.{subst}
use velocity_dispatch.Prelude.{
  ℕ, ◌+◌, ◌≡◌, ◌≢◌, ◌≤◌, refl, sym, ap, ◌∙◌, inl, inr, Bool, Bool-cases, true, false, ◌&&◌, List,
  [], ◌∷◌, ◌++◌, count, count-append, count_mem, arith, All-at, All-map, All-filter, All-mono,
  All-mem, Memᴰ, ℕ-cases, ◌==◌, ==_refl, if◌then◌else◌, Option, none, some, String, Outcome, done,
  failed, lost,
}
use velocity_dispatch.Core.Model.{Uuid, DateTime, GeoPoint, Driver, DriverStatus, is_available}
use velocity_dispatch.Store.{
  Database, DriverRow, AssignmentRow, Distinct, row_of, is_key, count-key, ◌is◌,
}
use velocity_dispatch.Api.Db.{driver_key, upsert_rows, upsert_driver, status_str}
use velocity_dispatch.Api.Routes.{
  sent_row, upserted, upsert_rows_self, upsert_rows_other, upsert_rows-Distinct, upserted-status,
  free-status_str,
}
use velocity_dispatch.Worker.Db.{busied_drivers, candidate, selectable}
use velocity_dispatch.Worker.Matching.{AssignIo, complete, candidates, assignment_row}
use velocity_dispatch.System.Handlers.{upsert_effect}

busy-not_free : (k id : Uuid) → ((k == id) && ("busy" is "available")) ≡ false
busy-not_free k id = ground arith

-- One, where the upsert says that the driver is available.
abbrev pub says_free : Uuid → Uuid → DriverStatus → ℕ
says_free k id status = if (k == id) && is_available status then 1 else 0

module _ {F : Type 0} where
  abbrev pub of_driver : Uuid → AssignmentRow F → Bool
  of_driver id a = a.driver_id == id

  abbrev is_free : DriverRow F → Bool
  is_free r = r.status is "available"

  abbrev pub free_of : Uuid → DriverRow F → Bool
  free_of id r = is_key driver_key id r && is_free r

  -- The orders that the driver has, and one more where the driver is available.
  abbrev pub booked : Uuid → Database F → ℕ
  booked id db = count (of_driver id) db.assignments + count (free_of id) db.drivers

  free-busied :
      (now : DateTime) (k id : Uuid) (rows : List (DriverRow F))
      → count (free_of id) (busied_drivers now k rows)
        ≡ (if k == id then 0 else count (free_of id) rows)
  free-busied now k id [] = ground arith
  free-busied now k id (r ∷ rows) = elim (Bool-cases (is_key driver_key k r)) [
    | inl e ↦ rw e (ground (arith, free-busied now k id rows, e, busy-not_free r.id id))
    | inr e ↦ rw e (ground (arith, free-busied now k id rows, e))
  ]

  pub candidates-free :
      (io : AssignIo) (db : Database F) (d : Driver F)
      → Memᴰ d (candidates io db)
      → 1 ≤ count (free_of d.id) db.drivers
  candidates-free io db d m =
      All-at (λ c. 1 ≤ count (free_of c.id) db.drivers) (candidates io db) m
        (All-map _ (candidate io.clock) _ (
          All-filter _ (selectable io.locked) db.drivers (
            All-mono (λ r. Memᴰ r db.drivers) _ db.drivers
              (λ r there ok.
                count_mem (free_of r.id) r db.drivers (rw (==_refl r.id) (ground arith)) there)
              (All-mem db.drivers))))

  -- The three writes for an available driver leave the sum, for each driver.
  pub booked-complete :
      (io : AssignIo) (order_id k : Uuid) (x : F) (db : Database F) (id : Uuid)
      → 1 ≤ count (free_of k) db.drivers
      → booked id (complete io order_id k x db) ≤ booked id db
  booked-complete io order_id k x db id free =
      rw
        (
          count-append (of_driver id) db.assignments (assignment_row io order_id k x ∷ []),
          free-busied io.tx_now k id db.drivers,
        )
        (elim (ℕ-cases k id) [
          | inl e ↦
              let free' : 1 ≤ count (free_of id) db.drivers =
                subst (λ j. 1 ≤ count (free_of j) db.drivers) e free in
              rw (subst (λ j. (k == j) ≡ true) e (==_refl k)) (omega (arith, free'))
          | inr ne ↦ ground (arith, ne)
        ])

  free-upsert :
      (r : DriverRow F) (rows : List (DriverRow F)) (id : Uuid)
      → Distinct driver_key rows
      → count (free_of id) (upsert_rows r rows)
        ≤ count (free_of id) rows + (if (r.id == id) && is_free r then 1 else 0)
  free-upsert r rows id d =
      rw
        (
          count-key driver_key id is_free (upsert_rows r rows) (upsert_rows-Distinct r rows d),
          count-key driver_key id is_free rows d,
        )
        (elim (ℕ-cases id r.id) [
          | inl e ↦ rw e (
              rw (upsert_rows_self r rows, ==_refl r.id)
                (rw (upserted-status r (row_of driver_key r.id rows)) (omega arith)))
          | inr ne ↦ rw (upsert_rows_other id r rows ne) (omega arith)
        ])

  pub upsert_driver-booked :
      (io : Outcome) (now : DateTime) (k : Uuid) (name : String) (p : GeoPoint F)
      (status : DriverStatus) (db : Database F) (id : Uuid)
      → Distinct driver_key db.drivers
      → booked id (upsert_driver io now k name p status db).1 ≤ booked id db + says_free k id status
  upsert_driver-booked io now k name p status db id d =
      let sent = sent_row now k name p status in
      elim (upsert_effect io now k name p status db) [
        | inl same ↦ rw same (omega arith)
        | inr new ↦
            rw (new, sym (free-status_str status)) (omega (arith, free-upsert sent db.drivers id d))
      ]
