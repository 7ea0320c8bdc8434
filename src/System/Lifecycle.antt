-- ===== src/System/Lifecycle.antt =====
-- The system as a client of an order sees it: unknown, then waiting, then settled with a driver, for
-- good. It forgets the tables, the messages, the workers and their failures.
pub mod Simulates
use velocity_dispatch.Prelude.{◌≡◌, ◌≢◌, Option, none, some, find?, if◌then◌else◌}
use velocity_dispatch.Core.Model.{Uuid}
use velocity_dispatch.Store.{Database, OrderRow, AssignmentRow, row_of, ◌is◌}
use velocity_dispatch.Api.Db.{order_key}
use velocity_dispatch.System.Writes.{of_order}

pub data Stage : Type 0 where
  unknown : Stage
  waiting : Stage
  -- with the driver, if it was assigned
  settled : Option Uuid → Stage

abbrev pub Board : Type 0
Board = Uuid → Stage

-- What may happen to the orders, one at a time.
pub data Event (g h : Board) : Type 0 where
  stays : ((k : Uuid) → h k ≡ g k) → Event g h
  opens :
      (id : Uuid) → g id ≡ unknown → h id ≡ waiting → ((k : Uuid) → k ≢ id → h k ≡ g k) → Event g h
  settles :
      (id driver_id : Uuid)
      → g id ≡ waiting
      → h id ≡ settled (some driver_id)
      → ((k : Uuid) → k ≢ id → h k ≡ g k)
      → Event g h

pub data Events (g : Board) : Board → Type 0 where
  none_yet : Events g g
  after : {h u : Board} → Events g h → Event h u → Events g u

module _ {F : Type 0} where
  abbrev pub driver_of : Option (AssignmentRow F) → Option Uuid
  driver_of none = none
  driver_of (some a) = some a.driver_id

  abbrev pub stage_of_row : Option (OrderRow F) → Option (AssignmentRow F) → Stage
  stage_of_row none a = unknown
  stage_of_row (some o) a = if o.status is "pending" then waiting else settled (driver_of a)

  -- The stage of each order, by the tables.
  abbrev pub board : Database F → Board
  board db id = stage_of_row (row_of order_key id db.orders) (find? (of_order id) db.assignments)
