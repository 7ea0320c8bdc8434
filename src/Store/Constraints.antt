-- ===== src/Store/Constraints.antt =====
-- What the database enforces: primary keys, checks and references.
use velocity_dispatch.Prelude.{◌≡◌, true, List, All}
use velocity_dispatch.Store.Rows.{has, Distinct}
use velocity_dispatch.Store.Schema.{
  DriverRow, OrderRow, AssignmentRow, Database, check_driver_status, check_order_status,
}

module _ {F : Type 0} where
  -- `REFERENCES orders (id)` and `REFERENCES drivers (id)`
  abbrev pub Refers : List (OrderRow F) → List (DriverRow F) → AssignmentRow F → Type 0
  Refers orders drivers a =
      (has (λ (o : OrderRow F). o.id) a.order_id orders ≡ true)
      × (has (λ (d : DriverRow F). d.id) a.driver_id drivers ≡ true)

  pub record IsSchema (db : Database F) : Type 0 where
    pub order_keys : Distinct (λ (o : OrderRow F). o.id) db.orders
    pub driver_keys : Distinct (λ (d : DriverRow F). d.id) db.drivers
    pub assignment_keys : Distinct (λ (a : AssignmentRow F). a.id) db.assignments
    pub order_checks : All (λ (o : OrderRow F). check_order_status o.status ≡ true) db.orders
    pub driver_checks : All (λ (d : DriverRow F). check_driver_status d.status ≡ true) db.drivers
    pub references : All (Refers db.orders db.drivers) db.assignments
