-- ===== src/System/Overlap/Fits.antt =====
-- What a transaction has seen still holds of what is committed, until it ends.
use velocity_dispatch.Prelude.{
  ℕ, ◌≡◌, ◌≢◌, refl, ◌∙◌, false, [], ◌∷◌, ◌++◌, ok, ◌==◌, ==_iff, arith,
}
use velocity_dispatch.Float.{Float}
use velocity_dispatch.Core.Model.{Uuid, DateTime, Order}
use velocity_dispatch.Core.Geo.{nearest_driver}
use velocity_dispatch.Store.{Database, DriverRow, has, row_of-append, has_of_row, has-append}
use velocity_dispatch.Api.Db.{order_key, row_of_order, upsert_rows}
use velocity_dispatch.Worker.Db.{assignment_key, set_busy}
use velocity_dispatch.Worker.Matching.{AssignIo, Pending, complete, assignment_row}
use velocity_dispatch.Worker.Matching.Claim.{claimed-other}
use velocity_dispatch.System.Overlap.{
  Phase, idle, claimed, selected, recorded, holds_order, holds_driver, holds_key,
}
use velocity_dispatch.System.Overlap.Shown.{Shows, upsert-Shows, update-Shows}

differ : (a b : ℕ) → (a == b) ≡ false → a ≢ b
differ a b h e = cc ((==_iff a b).1 e)

module _ {F : Type 0} where
  Pending-insert :
      (stored : DateTime) (o : Order F) (id : Uuid) (db : Database F)
      → Pending id db
      → Pending id (record db { orders = db.orders ++ row_of_order stored o ∷ [] })
  Pending-insert stored o id db (row, found, p) = (
    row,
    rw (row_of-append order_key id db.orders (row_of_order stored o))
        (rw (has_of_row order_key id db.orders row found) found),
    p,
  )

  Pending-complete :
      (io : AssignIo) (order_id driver_id : Uuid) (x : F) (id : Uuid) (db : Database F)
      → (id == order_id) ≡ false
      → Pending id db
      → Pending id (complete io order_id driver_id x db)
  Pending-complete io order_id driver_id x id db ne (row, found, p) =
      (row, claimed-other id order_id db.orders (differ id order_id ne) ∙ found, p)

module _ {F : Type 0} ⦃f : Float F⦄ where
  abbrev pub Fits : Database F → Phase F → Type 0
  Fits db idle = Unit
  Fits db (claimed a) = Pending a.order_id db
  Fits db (selected a cs) = Pending a.order_id db × Shows a.io.clock db.drivers cs
  Fits db (recorded a cs d x) =
      Pending a.order_id db
      × Shows a.io.clock db.drivers cs
      × (nearest_driver a.pickup cs a.radius_km ≡ ok (d, x))
      × (has assignment_key a.io.new_id db.assignments ≡ false)

  pub Fits-insert :
      (stored : DateTime) (o : Order F) (db : Database F) (p : Phase F)
      → Fits db p
      → Fits (record db { orders = db.orders ++ row_of_order stored o ∷ [] }) p
  Fits-insert stored o db idle h = tt
  Fits-insert stored o db (claimed a) h = Pending-insert stored o a.order_id db h
  Fits-insert stored o db (selected a cs) h = (Pending-insert stored o a.order_id db h.0, h.1)
  Fits-insert stored o db (recorded a cs d x) h =
      (Pending-insert stored o a.order_id db h.0, h.1, h.2, h.3)

  pub Fits-upsert :
      (r : DriverRow F) (db : Database F) (p : Phase F)
      → holds_driver p r.id ≡ false
      → Fits db p
      → Fits (record db { drivers = upsert_rows r db.drivers }) p
  Fits-upsert r db idle free h = tt
  Fits-upsert r db (claimed a) free h = h
  Fits-upsert r db (selected a cs) free h = (h.0, upsert-Shows a.io.clock r db.drivers cs free h.1)
  Fits-upsert r db (recorded a cs d x) free h =
      (h.0, upsert-Shows a.io.clock r db.drivers cs free h.1, h.2, h.3)

  -- Another transaction commits.
  pub Fits-complete :
      (io : AssignIo) (order_id driver_id : Uuid) (y : F) (db : Database F) (p : Phase F)
      → holds_order p order_id ≡ false
      → holds_driver p driver_id ≡ false
      → holds_key p io.new_id ≡ false
      → Fits db p
      → Fits (complete io order_id driver_id y db) p
  Fits-complete io o k y db idle no_order no_driver no_key h = tt
  Fits-complete io o k y db (claimed a) no_order no_driver no_key h =
      Pending-complete io o k y a.order_id db no_order h
  Fits-complete io o k y db (selected a cs) no_order no_driver no_key h = (
    Pending-complete io o k y a.order_id db no_order h.0,
    update-Shows a.io.clock k (set_busy io.tx_now) db.drivers cs (λ _. refl) no_driver h.1,
  )
  Fits-complete io o k y db (recorded a cs d x) no_order no_driver no_key h = (
    Pending-complete io o k y a.order_id db no_order h.0,
    update-Shows a.io.clock k (set_busy io.tx_now) db.drivers cs (λ _. refl) no_driver h.1,
    h.2,
    rw (has-append assignment_key a.io.new_id db.assignments (assignment_row io o k y))
        (rw h.3 (ground (arith, no_key))),
  )
