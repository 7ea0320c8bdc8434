-- ===== src/Worker/Db.antt =====
-- services/dispatch-worker/src/db.rs. The statements run inside a transaction: the tables are those
-- that the transaction sees. `locked` tells which driver rows other transactions hold.
use velocity_dispatch.Prelude.{
  Bool, not, ◌&&◌, ◌||◌, List, [], ◌∷◌, ◌++◌, map, Result, ok, err, Outcome, filter, count, String,
  if◌then◌else◌, ◌==◌,
}
use velocity_dispatch.Core.Model.{Uuid, DateTime, Driver, available}
use velocity_dispatch.Store.{
  DriverRow, OrderRow, AssignmentRow, Database, update_where, is_key, has, SqlError, violation,
  execute, ◌is◌,
}
use velocity_dispatch.Api.Db.{order_key, driver_key}

-- `DriverRow` of that file: what the SELECT for update returns.
pub record SelectedRow (F : Type 0) : Type 0 where
  pub id : Uuid
  pub name : String
  pub lat : F
  pub lon : F

module _ {F : Type 0} where
  abbrev pub assignment_key : AssignmentRow F → Uuid
  assignment_key a = a.id

  -- `SET status = 'assigned'`
  abbrev pub set_assigned : OrderRow F → OrderRow F
  set_assigned o = record o { status = "assigned" }

  abbrev pub is_pending : OrderRow F → Bool
  is_pending o = o.status is "pending"

  -- `WHERE id = $1 AND status = 'pending'`
  abbrev pub claimable : Uuid → OrderRow F → Bool
  claimable order_id o = is_key order_key order_id o && is_pending o

  abbrev pub claimed_orders : Uuid → List (OrderRow F) → List (OrderRow F)
  claimed_orders order_id orders = update_where (claimable order_id) set_assigned orders

  unfoldable pub claim_order_for_assignment :
      Outcome → Uuid → Database F → Result SqlError Bool × Database F
  claim_order_for_assignment io order_id db = execute io db (
    ok (count (claimable order_id) db.orders == 1),
    record db { orders = claimed_orders order_id db.orders },
  )

  -- `WHERE status = 'available' FOR UPDATE SKIP LOCKED`
  abbrev pub selectable : (Uuid → Bool) → DriverRow F → Bool
  selectable locked d = d.status is "available" && not (locked d.id)

  -- `SELECT id, name, lat, lon`
  abbrev pub selected_columns : DriverRow F → SelectedRow F
  selected_columns r = record { id = r.id; name = r.name; lat = r.lat; lon = r.lon }

  -- The status is the one that the statement selects by; `clock` is `Utc::now()` at that row.
  abbrev pub driver_of_selected : (Uuid → DateTime) → SelectedRow F → Driver F
  driver_of_selected clock r = record {
    id = r.id;
    name = r.name;
    location = record { lat = r.lat; lon = r.lon };
    status = available;
    updated_at = clock r.id;
  }

  abbrev pub candidate : (Uuid → DateTime) → DriverRow F → Driver F
  candidate clock r = driver_of_selected clock (selected_columns r)

  unfoldable pub available_drivers_for_update :
      Outcome
      → (Uuid → DateTime)
      → (Uuid → Bool)
      → Database F
      → Result SqlError (List (Driver F)) × Database F
  available_drivers_for_update io clock locked db =
      execute io db (ok (map (candidate clock) (filter (selectable locked) db.drivers)), db)

  -- `INSERT INTO assignments`, with its key and its references.
  unfoldable pub insert_assignment :
      AssignmentRow F → Database F → Result SqlError (Unit {0}) × Database F
  insert_assignment a db =
      if has assignment_key a.id db.assignments
        || not (has order_key a.order_id db.orders)
        || not (has driver_key a.driver_id db.drivers)
      then (err violation, db)
      else (ok tt, record db { assignments = db.assignments ++ a ∷ [] })

  -- `SET status = 'busy', updated_at = now()`
  abbrev pub set_busy : DateTime → DriverRow F → DriverRow F
  set_busy now d = record d { status = "busy"; updated_at = now }

  abbrev pub busied_drivers : DateTime → Uuid → List (DriverRow F) → List (DriverRow F)
  busied_drivers now driver_id drivers =
      update_where (is_key driver_key driver_id) (set_busy now) drivers

  unfoldable pub set_driver_busy :
      DateTime → Uuid → Database F → Result SqlError (Unit {0}) × Database F
  set_driver_busy now driver_id db =
      (ok tt, record db { drivers = busied_drivers now driver_id db.drivers })
