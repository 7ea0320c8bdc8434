-- ===== src/Worker/Matching/Defs.antt =====
-- The transaction. Its statements work on a copy of the tables; `settle` makes the copy the
-- database, or drops it.
use velocity_dispatch.Prelude.{
  ℕ, Bool, Result, ok, err, Outcome, attempt, and_then, ◌>>=◌, ◌>>◌, return, map_result,
  if◌then◌else◌,
}
use velocity_dispatch.Float.{Float}
use velocity_dispatch.Core.Model.{Uuid, DateTime, CoreError, no_driver_in_range, GeoPoint, Driver}
use velocity_dispatch.Core.Events.{DispatchAssigned}
use velocity_dispatch.Core.Geo.{nearest_driver}
use velocity_dispatch.Store.{Database, AssignmentRow, SqlError, unreachable, execute}
use velocity_dispatch.Worker.Db.{
  claim_order_for_assignment, available_drivers_for_update, insert_assignment, set_driver_busy,
}

pub data AssignOutcome (F : Type 0) : Type 0 where
  assigned : DispatchAssigned F → AssignOutcome F
  already_handled : AssignOutcome F
  no_driver_available : AssignOutcome F

-- `anyhow::Error`, by where it comes from.
pub data WorkerError (F : Type 0) : Type 0 where
  sql : SqlError → WorkerError F
  core : CoreError F → WorkerError F
  bad_json : WorkerError F
  aws : WorkerError F
  -- EventBridge rejected so many entries
  rejected : ℕ → WorkerError F

-- What an attempt takes from outside: how each round trip ends, the clocks, the fresh id, and the
-- driver rows that other transactions hold.
pub record AssignIo : Type 0 where
  pub begin : Outcome
  pub claim : Outcome
  pub select : Outcome
  pub insert : Outcome
  pub update : Outcome
  pub finish : Outcome
  pub new_id : Uuid
  pub tx_now : DateTime
  pub now : DateTime
  pub clock : Uuid → DateTime
  pub locked : Uuid → Bool

module _ {F : Type 0} where
  abbrev pub on_sql :
      {A : Type 0} → Result SqlError A × Database F → Result (WorkerError F) A × Database F
  on_sql (r, db) = (map_result sql r, db)

  abbrev pub assignment_row : AssignIo → Uuid → Uuid → F → AssignmentRow F
  assignment_row io order_id driver_id distance_km = record {
    id = io.new_id;
    order_id = order_id;
    driver_id = driver_id;
    distance_km = distance_km;
    assigned_at = io.tx_now;
  }

  -- `db::record_assignment`: two statements, and the id that it made.
  unfoldable pub record_assignment :
      AssignIo → Uuid → Uuid → F → Database F → Result SqlError Uuid × Database F
  record_assignment io order_id driver_id distance_km = do
    λ db.
        execute io.insert db
          (insert_assignment (assignment_row io order_id driver_id distance_km) db)
    λ db. execute io.update db (set_driver_busy io.tx_now driver_id db)
    return io.new_id

  abbrev pub event : AssignIo → Uuid → Uuid → F → Uuid → DispatchAssigned F
  event io order_id driver_id distance_km assignment_id = record {
    assignment_id = assignment_id;
    order_id = order_id;
    driver_id = driver_id;
    distance_km = distance_km;
    assigned_at = io.now;
  }

  -- The `match` on the result of `nearest_driver`.
  unfoldable pub take_driver :
      AssignIo
      → Uuid
      → Result (CoreError F) (Driver F × F)
      → Database F
      → Result (WorkerError F) (AssignOutcome F) × Database F
  take_driver io order_id (ok (driver, distance_km)) db =
      and_then (on_sql (record_assignment io order_id driver.id distance_km db))
        (λ assignment_id. return (assigned (event io order_id driver.id distance_km assignment_id)))
  take_driver io order_id (err (no_driver_in_range _)) db = (ok no_driver_available, db)
  take_driver io order_id (err other) db = (err (core other), db)

  -- `tx.commit()` for an assignment, else `tx.rollback()`; an error drops the transaction.
  unfoldable pub settle :
      Outcome
      → Database F
      → Result (WorkerError F) (AssignOutcome F) × Database F
      → Result (WorkerError F) (AssignOutcome F) × Database F
  settle io db (ok (assigned e), tx) = attempt io (sql unreachable) db (ok (assigned e), tx)
  settle io db (ok other, tx) = attempt io (sql unreachable) db (ok other, db)
  settle io db (err e, tx) = (err e, db)

module _ {F : Type 0} ⦃f : Float F⦄ where
  unfoldable pub match_order :
      AssignIo
      → Uuid
      → GeoPoint F
      → ℕ
      → Database F
      → Result (WorkerError F) (AssignOutcome F) × Database F
  match_order io order_id pickup radius_km = do
    claimed ← λ db. on_sql (claim_order_for_assignment io.claim order_id db)
    if claimed
        then (do
          candidates ← λ db. on_sql (available_drivers_for_update io.select io.clock io.locked db)
          take_driver io order_id (nearest_driver pickup candidates radius_km))
        else return already_handled

  unfoldable pub assign_order :
      AssignIo
      → Uuid
      → GeoPoint F
      → ℕ
      → Database F
      → Result (WorkerError F) (AssignOutcome F) × Database F
  assign_order io order_id pickup radius_km db =
      and_then (attempt io.begin (sql unreachable) db (ok tt, db))
        λ _ s. settle io.finish s (match_order io order_id pickup radius_km s)
