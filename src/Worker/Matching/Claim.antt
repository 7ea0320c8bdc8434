-- ===== src/Worker/Matching/Claim.antt =====
-- What the claim and the busy mark do to single rows.
use mathlib.Core.Option
use mathlib.Core.Option.{some-injective}
use velocity_dispatch.Prelude.{
  ◌≡◌, ◌≢◌, refl, sym, ap, ◌∙◌, inl, inr, false, List, none, some, arith, eq_iff, Bool-cases,
  Option-cases, if◌then◌else◌,
}
use velocity_dispatch.Core.Model.{Uuid, DateTime}
use velocity_dispatch.Store.{
  OrderRow, DriverRow, row_of, row_of-update_where, row_of-key, is_key, is_key_of_row,
}
use velocity_dispatch.Api.Db.{order_key, driver_key}
use velocity_dispatch.Worker.Db.{
  claimable, claimed_orders, set_assigned, is_pending, set_busy, busied_drivers,
}

module _ {F : Type 0} where
  row_of-claimed :
      (k id : Uuid) (rows : List (OrderRow F))
      → row_of order_key k (claimed_orders id rows)
        ≡ Option.map (λ o. if claimable id o then set_assigned o else o) (row_of order_key k rows)
  row_of-claimed k id rows =
      row_of-update_where order_key (claimable id) set_assigned (λ _. refl) k rows

  -- The claim of a pending order changes its status.
  pub claimed_self :
      (id : Uuid) (rows : List (OrderRow F)) (old : OrderRow F)
      → row_of order_key id rows ≡ some old
      → old.status ≡ "pending"
      → row_of order_key id (claimed_orders id rows) ≡ some (set_assigned old)
  claimed_self id rows old found p = rw (row_of-claimed id id rows) (
      rw found
        (rw (is_key_of_row order_key id rows old found) (rw ((eq_iff old.status "pending").1 p))))

  pub claimed-other :
      (k id : Uuid) (rows : List (OrderRow F))
      → k ≢ id
      → row_of order_key k (claimed_orders id rows) ≡ row_of order_key k rows
  claimed-other k id rows ne =
      rw (row_of-claimed k id rows) (elim (Option-cases (row_of order_key k rows)) [
        | inl no_row ↦ rw no_row
        | inr (o, found) ↦ rw found (ground (arith, row_of-key order_key k rows o found))
      ])

  -- An order that is not pending stays as it is.
  claimed-settled :
      (id : Uuid) (rows : List (OrderRow F)) (old : OrderRow F)
      → row_of order_key id rows ≡ some old
      → is_pending old ≡ false
      → row_of order_key id (claimed_orders id rows) ≡ some old
  claimed-settled id rows old found n =
      rw (row_of-claimed id id rows)
        (rw found (rw (is_key_of_row order_key id rows old found) (rw n)))

  claimed-none :
      (id : Uuid) (rows : List (OrderRow F))
      → row_of order_key id rows ≡ none
      → row_of order_key id (claimed_orders id rows) ≡ none
  claimed-none id rows no_row = rw (row_of-claimed id id rows) (rw no_row)

  status_of_some : {o row : OrderRow F} → some o ≡ some row → o.status ≡ row.status
  status_of_some e = ap (λ (o : OrderRow F). o.status) (some-injective _ _ e)

  -- After the claim the order is not pending.
  pub claimed-not_pending :
      (id : Uuid) (rows : List (OrderRow F)) (row : OrderRow F)
      → row_of order_key id (claimed_orders id rows) ≡ some row
      → row.status ≢ "pending"
  claimed-not_pending id rows row found p = elim (Option-cases (row_of order_key id rows)) [
    | inl no_row ↦ cc (claimed-none id rows no_row)
    | inr (old, there) ↦ elim (Bool-cases (is_pending old)) [
      | inl y ↦
          let now_row = claimed_self id rows old there ((eq_iff old.status "pending").0 y) in
          cc ((eq_iff "assigned" "pending").1 (status_of_some (sym now_row ∙ found) ∙ p))
      | inr n ↦
          let now_row = claimed-settled id rows old there n in
          cc ((eq_iff old.status "pending").1 (status_of_some (sym now_row ∙ found) ∙ p))
    ]
  ]

  pub busied_self :
      (now : DateTime) (id : Uuid) (rows : List (DriverRow F)) (old : DriverRow F)
      → row_of driver_key id rows ≡ some old
      → row_of driver_key id (busied_drivers now id rows) ≡ some (set_busy now old)
  busied_self now id rows old found =
      rw (row_of-update_where driver_key (is_key driver_key id) (set_busy now) (λ _. refl) id rows)
        (rw found (rw (is_key_of_row driver_key id rows old found)))

  pub busied-other :
      (now : DateTime) (k id : Uuid) (rows : List (DriverRow F))
      → k ≢ id
      → row_of driver_key k (busied_drivers now id rows) ≡ row_of driver_key k rows
  busied-other now k id rows ne =
      rw (row_of-update_where driver_key (is_key driver_key id) (set_busy now) (λ _. refl) k rows)
        (elim (Option-cases (row_of driver_key k rows)) [
          | inl no_row ↦ rw no_row
          | inr (o, found) ↦ rw found (ground (arith, row_of-key driver_key k rows o found))
        ])
