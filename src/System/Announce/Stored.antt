-- ===== src/System/Announce/Stored.antt =====
-- Events that tell of an assignment in the database.
use mathlib.Core.Path.{subst}
use velocity_dispatch.Prelude.{
  ◌≡◌, ◌≤◌, sym, [], ◌∷◌, Memᴰ, count, count-append, arith, mem_append_left,
}
use velocity_dispatch.Core.Model.{Uuid}
use velocity_dispatch.Core.Events.{DispatchAssigned}
use velocity_dispatch.Store.{Database, AssignmentRow}
use velocity_dispatch.Worker.Matching.{assignment_row}
use velocity_dispatch.System.Writes.{Write, same, places, upserts, assigns, of_order}

module _ {F : Type 0} where
  pub record IsStored (db : Database F) (e : DispatchAssigned F) : Type 0 where
    pub row : AssignmentRow F
    pub there : Memᴰ row db.assignments
    pub id : row.id ≡ e.assignment_id
    pub order_id : row.order_id ≡ e.order_id
    pub driver_id : row.driver_id ≡ e.driver_id

  -- What is stored stays.
  pub Write-IsStored :
      {db t : Database F} {e : DispatchAssigned F} → Write db t → IsStored db e → IsStored t e
  Write-IsStored {e = e} (same h) s = subst (λ u. IsStored u e) (sym h) s
  Write-IsStored {e = e} (places stored o _ h) s =
      subst (λ u. IsStored u e) (sym h)
        (record {
          row = s.row;
          there = s.there;
          id = s.id;
          order_id = s.order_id;
          driver_id = s.driver_id;
        })
  Write-IsStored {e = e} (upserts r _ h) s =
      subst (λ u. IsStored u e) (sym h)
        (record {
          row = s.row;
          there = s.there;
          id = s.id;
          order_id = s.order_id;
          driver_id = s.driver_id;
        })
  Write-IsStored {db} {e = e} (assigns io id d x _ _ _ h) s =
      subst (λ u. IsStored u e) (sym h)
        (record {
          row = s.row;
          there = mem_append_left db.assignments (assignment_row io id d x ∷ []) s.there;
          id = s.id;
          order_id = s.order_id;
          driver_id = s.driver_id;
        })

  -- No write takes an assignment away.
  pub Write-count :
      {db t : Database F} (id : Uuid)
      → Write db t
      → count (of_order id) db.assignments ≤ count (of_order id) t.assignments
  Write-count id (same h) = rw h (omega arith)
  Write-count id (places stored o _ h) = rw h (omega arith)
  Write-count id (upserts r _ h) = rw h (omega arith)
  Write-count {db} id (assigns io k d x _ _ _ h) =
      rw h (omega (arith, count-append (of_order id) db.assignments (assignment_row io k d x ∷ [])))
