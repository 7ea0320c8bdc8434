-- ===== src/System/Schema.antt =====
-- Every write keeps the constraints of the schema.
use mathlib.Core.Path.{subst}
use velocity_dispatch.Prelude.{
  ◌≡◌, refl, sym, ◌∙◌, inl, inr, true, false, List, [], ◌∷◌, ◌++◌, Bool-cases, All, All-mono,
  All-append,
}
use velocity_dispatch.Core.Model.{DateTime, Uuid, Order}
use velocity_dispatch.Store.{
  Database, OrderRow, DriverRow, AssignmentRow, has, check_driver_status, check_order_status,
  Distinct, Distinct-append, Distinct-update_where, has-append, has-update_where, has_of_row,
  is_key, IsSchema, Refers, All-update_where,
}
use velocity_dispatch.Api.Db.{order_key, driver_key, row_of_order, upsert_rows, moved}
use velocity_dispatch.Worker.Db.{
  assignment_key, claimed_orders, claimable, set_assigned, busied_drivers, set_busy,
}
use velocity_dispatch.Worker.Matching.{AssignIo, Pending, complete, assignment_row}
use velocity_dispatch.System.Writes.{Write, same, places, upserts, assigns}

module _ {F : Type 0} where
  -- Known ids stay known.
  has-upsert_rows :
      (k : Uuid) (r : DriverRow F) (rows : List (DriverRow F))
      → has driver_key k rows ≡ true
      → has driver_key k (upsert_rows r rows) ≡ true
  unfolding upsert_rows
  has-upsert_rows k r rows h = elim (Bool-cases (has driver_key r.id rows)) [
    | inl old ↦
        rw old
          (rw (has-update_where driver_key (is_key driver_key r.id) (moved r) (λ _. refl) k rows) h)
    | inr new ↦ rw new (rw (has-append driver_key k rows r) (rw h))
  ]

  Distinct-upsert_rows :
      (r : DriverRow F) (rows : List (DriverRow F))
      → Distinct driver_key rows
      → Distinct driver_key (upsert_rows r rows)
  unfolding upsert_rows
  Distinct-upsert_rows r rows d = elim (Bool-cases (has driver_key r.id rows)) [
    | inl old ↦
        rw old
          (Distinct-update_where driver_key (is_key driver_key r.id) (moved r) (λ _. refl) rows d)
    | inr new ↦ rw new (Distinct-append driver_key rows r new d)
  ]

  abbrev Checked : DriverRow F → Type 0
  Checked d = check_driver_status d.status ≡ true

  Checked-upsert_rows :
      (r : DriverRow F) (rows : List (DriverRow F))
      → Checked r
      → All Checked rows
      → All Checked (upsert_rows r rows)
  unfolding upsert_rows
  Checked-upsert_rows r rows c h = elim (Bool-cases (has driver_key r.id rows)) [
    | inl old ↦
        rw old (All-update_where Checked (is_key driver_key r.id) (moved r) rows (λ _ _. c) h)
    | inr new ↦ rw new (All-append Checked rows (r ∷ []) h (c, tt))
  ]

  abbrev OrderChecked : OrderRow F → Type 0
  OrderChecked o = check_order_status o.status ≡ true

  places-IsSchema :
      (stored : DateTime) (o : Order F) (db : Database F)
      → has order_key o.id db.orders ≡ false
      → IsSchema db
      → IsSchema (record db { orders = db.orders ++ row_of_order stored o ∷ [] })
  places-IsSchema stored o db new s = record {
    order_keys = Distinct-append order_key db.orders (row_of_order stored o) new s.order_keys;
    driver_keys = s.driver_keys;
    assignment_keys = s.assignment_keys;
    order_checks =
        All-append OrderChecked db.orders (row_of_order stored o ∷ []) s.order_checks (refl, tt);
    driver_checks = s.driver_checks;
    references =
        All-mono _ _ db.assignments
          (λ a h. (
            rw (has-append order_key a.order_id db.orders (row_of_order stored o)) (rw (h.0)),
            h.1,
          ))
          s.references;
  }

  upserts-IsSchema :
      (r : DriverRow F) (db : Database F)
      → check_driver_status r.status ≡ true
      → IsSchema db
      → IsSchema (record db { drivers = upsert_rows r db.drivers })
  upserts-IsSchema r db c s = record {
    order_keys = s.order_keys;
    driver_keys = Distinct-upsert_rows r db.drivers s.driver_keys;
    assignment_keys = s.assignment_keys;
    order_checks = s.order_checks;
    driver_checks = Checked-upsert_rows r db.drivers c s.driver_checks;
    references =
        All-mono _ _ db.assignments (λ a h. (h.0, has-upsert_rows a.driver_id r db.drivers h.1))
          s.references;
  }

  has-claimed :
      (k id : Uuid) (rows : List (OrderRow F))
      → has order_key k (claimed_orders id rows) ≡ has order_key k rows
  has-claimed k id rows = has-update_where order_key (claimable id) set_assigned (λ _. refl) k rows

  assigns-IsSchema :
      (io : AssignIo) (id driver_id : Uuid) (distance_km : F) (db : Database F)
      → Pending id db
      → has assignment_key io.new_id db.assignments ≡ false
      → has driver_key driver_id db.drivers ≡ true
      → IsSchema db
      → IsSchema (complete io id driver_id distance_km db)
  assigns-IsSchema io id driver_id dist db p new known s = record {
    order_keys =
        Distinct-update_where order_key (claimable id) set_assigned (λ _. refl) db.orders
          s.order_keys;
    driver_keys =
        Distinct-update_where driver_key (is_key driver_key driver_id) (set_busy io.tx_now)
          (λ _. refl) db.drivers s.driver_keys;
    assignment_keys =
        Distinct-append assignment_key db.assignments (assignment_row io id driver_id dist) new
          s.assignment_keys;
    order_checks =
        All-update_where OrderChecked (claimable id) set_assigned db.orders (λ _ _. refl)
          s.order_checks;
    driver_checks =
        All-update_where Checked (is_key driver_key driver_id) (set_busy io.tx_now) db.drivers
          (λ _ _. refl) s.driver_checks;
    references =
        All-append Refers' db.assignments (assignment_row io id driver_id dist ∷ [])
          (All-mono _ _ db.assignments
            (λ a h. (has-claimed a.order_id id db.orders ∙ h.0, busied a.driver_id ∙ h.1))
            s.references)
          (
            (
              has-claimed id id db.orders ∙ has_of_row order_key id db.orders p.0 p.1,
              busied driver_id ∙ known,
            ),
            tt,
          );
  }
    where
      Refers' : AssignmentRow F → Type 0
      Refers' = Refers (claimed_orders id db.orders) (busied_drivers io.tx_now driver_id db.drivers)

      busied :
          (k : Uuid)
          → has driver_key k (busied_drivers io.tx_now driver_id db.drivers)
            ≡ has driver_key k db.drivers
      busied k =
          has-update_where driver_key (is_key driver_key driver_id) (set_busy io.tx_now) (λ _. refl)
            k db.drivers

  -- A write keeps the keys, the checks and the references.
  pub Write-IsSchema : {db t : Database F} → Write db t → IsSchema db → IsSchema t
  Write-IsSchema (same e) s = subst IsSchema (sym e) s
  Write-IsSchema {db} (places stored o new e) s =
      subst IsSchema (sym e) (places-IsSchema stored o db new s)
  Write-IsSchema {db} (upserts r c e) s = subst IsSchema (sym e) (upserts-IsSchema r db c s)
  Write-IsSchema {db} (assigns io id driver_id dist p new known e) s =
      subst IsSchema (sym e) (assigns-IsSchema io id driver_id dist db p new known s)

  -- No write loses an order.
  pub Write-has :
      {db t : Database F}
      → Write db t
      → (k : Uuid) → has order_key k db.orders ≡ true
      → has order_key k t.orders ≡ true
  Write-has (same e) k h = subst (λ (u : Database F). has order_key k u.orders ≡ true) (sym e) h
  Write-has {db} (places stored o new e) k h =
      subst (λ (u : Database F). has order_key k u.orders ≡ true) (sym e)
        (rw (has-append order_key k db.orders (row_of_order stored o)) (rw h))
  Write-has (upserts r c e) k h =
      subst (λ (u : Database F). has order_key k u.orders ≡ true) (sym e) h
  Write-has {db} (assigns io id driver_id dist p new known e) k h =
      subst (λ (u : Database F). has order_key k u.orders ≡ true) (sym e)
        (has-claimed k id db.orders ∙ h)
