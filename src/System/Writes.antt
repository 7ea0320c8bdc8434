-- ===== src/System/Writes.antt =====
-- The three ways in which the services change the tables, and the invariant of the tables: each
-- order has one assignment if its status is 'assigned', and none otherwise.
use velocity_dispatch.Prelude.{
  ℕ, ◌≡◌, ◌≤◌, arith, Bool, true, false, [], ◌∷◌, ◌++◌, Option, none, some, count, if◌then◌else◌,
  ◌==◌,
}
use velocity_dispatch.Core.Model.{DateTime, Uuid, Order}
use velocity_dispatch.Store.{
  Database, OrderRow, DriverRow, AssignmentRow, row_of, has, check_driver_status, ◌is◌,
}
use velocity_dispatch.Api.Db.{order_key, driver_key, row_of_order, upsert_rows}
use velocity_dispatch.Worker.Db.{assignment_key}
use velocity_dispatch.Worker.Matching.{AssignIo, Pending, complete}

module _ {F : Type 0} where
  -- A committed change of the tables by a service.
  pub data Write (db t : Database F) : Type 0 where
    same : t ≡ db → Write db t
    places :
        (stored : DateTime) (o : Order F)
        → has order_key o.id db.orders ≡ false
        → t ≡ record db { orders = db.orders ++ row_of_order stored o ∷ [] }
        → Write db t
    upserts :
        (r : DriverRow F)
        → check_driver_status r.status ≡ true
        → t ≡ record db { drivers = upsert_rows r db.drivers }
        → Write db t
    assigns :
        (io : AssignIo) (id driver_id : Uuid) (distance_km : F)
        → Pending id db
        → has assignment_key io.new_id db.assignments ≡ false
        → has driver_key driver_id db.drivers ≡ true
        → t ≡ complete io id driver_id distance_km db
        → Write db t

  abbrev pub of_order : Uuid → AssignmentRow F → Bool
  of_order id a = a.order_id == id

  abbrev pub assignments_due : Option (OrderRow F) → ℕ
  assignments_due none = 0
  assignments_due (some o) = if o.status is "assigned" then 1 else 0

  abbrev pub IsBalanced : Database F → Type 0
  IsBalanced db =
      (id : Uuid)
      → count (of_order id) db.assignments ≡ assignments_due (row_of order_key id db.orders)

  pub due_bounds : (o : Option (OrderRow F)) → assignments_due o ≤ 1
  due_bounds none = omega arith
  due_bounds (some o) = ground arith
