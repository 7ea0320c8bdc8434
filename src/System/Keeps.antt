-- ===== src/System/Keeps.antt =====
-- Every write keeps the invariants.
use mathlib.Core.Path.{subst}
use velocity_dispatch.Prelude.{
  ◌≡◌, sym, ap, ◌∙◌, inl, inr, false, [], ◌∷◌, ◌++◌, some, ◌==◌, arith, ==_iff, ==_refl, Bool-cases,
  count-append,
}
use velocity_dispatch.Core.Model.{DateTime, Uuid, Order}
use velocity_dispatch.Store.{Database, OrderRow, has, row_of-append, row_of-none}
use velocity_dispatch.Api.Db.{order_key, row_of_order}
use velocity_dispatch.Worker.Matching.{AssignIo, Pending, complete, assignment_row}
use velocity_dispatch.Worker.Matching.Claim.{claimed_self, claimed-other}
use velocity_dispatch.System.Writes.{
  Write, same, places, upserts, assigns, of_order, assignments_due, IsBalanced,
}

module _ {F : Type 0} where
  places-IsBalanced :
      (stored : DateTime) (o : Order F) (db : Database F)
      → has order_key o.id db.orders ≡ false
      → IsBalanced db
      → IsBalanced (record db { orders = db.orders ++ row_of_order stored o ∷ [] })
  places-IsBalanced stored o db new b id =
      rw (row_of-append order_key id db.orders (row_of_order stored o))
        (elim (Bool-cases (has order_key id db.orders)) [
          | inl old ↦ rw old (b id)
          | inr no_order ↦ rw no_order (elim (Bool-cases (o.id == id)) [
            | inl e ↦ rw e (rw (row_of-none order_key id db.orders no_order) at (b id))
            | inr e ↦ rw e (rw (row_of-none order_key id db.orders no_order) at (b id))
          ])
        ])

  due_pending : (o : OrderRow F) → o.status ≡ "pending" → assignments_due (some o) ≡ 0
  due_pending o p = rw p

  assigns-IsBalanced :
      (io : AssignIo) (id driver_id : Uuid) (distance_km : F) (db : Database F)
      → Pending id db
      → IsBalanced db
      → IsBalanced (complete io id driver_id distance_km db)
  assigns-IsBalanced io id driver_id dist db (old, found, p) b k =
      rw (count-append (of_order k) db.assignments (assignment_row io id driver_id dist ∷ []))
        (elim (Bool-cases (id == k)) [
          | inl e ↦
              let same_id : k ≡ id = sym ((==_iff id k).0 e) in
              rw same_id (
                rw (claimed_self id db.orders old found p) (
                  rw (==_refl id)
                    (omega (arith, b id ∙ ap assignments_due found ∙ due_pending old p))))
          | inr e ↦
              rw (claimed-other k id db.orders (λ h. ground arith)) (rw e (omega (arith, b k)))
        ])

  -- A write keeps the balance of orders and assignments.
  pub Write-IsBalanced : {db t : Database F} → Write db t → IsBalanced db → IsBalanced t
  Write-IsBalanced (same e) b = subst IsBalanced (sym e) b
  Write-IsBalanced {db} (places stored o new e) b =
      subst IsBalanced (sym e) (places-IsBalanced stored o db new b)
  Write-IsBalanced (upserts r ok e) b = subst IsBalanced (sym e) b
  Write-IsBalanced {db} (assigns io id driver_id dist p _ _ e) b =
      subst IsBalanced (sym e) (assigns-IsBalanced io id driver_id dist db p b)
