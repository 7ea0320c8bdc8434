-- ===== src/Worker/Matching/Progress.antt =====
-- An attempt whose calls all answer decides the order.
use velocity_dispatch.Prelude.{
  ℕ, ◌≡◌, refl, ◌∙◌, inl, inr, true, false, List, [], ◌∷◌, ◌++◌, Result, ok, Outcome, attempt,
  and_then, done, arith, Memᴰ, All, All-mono, All-map, All-filter, All-at, ==_refl,
}
use velocity_dispatch.Float.{Float}
use velocity_dispatch.Core.Model.{Uuid, DateTime, GeoPoint, Driver}
use velocity_dispatch.Core.Events.{DispatchAssigned}
use velocity_dispatch.Core.Geo.{nearest_driver}
use velocity_dispatch.Core.Geo.Nearest.{nearest_driver-IsEligible}
use velocity_dispatch.Store.{
  Database, DriverRow, AssignmentRow, execute, unreachable, Distinct, has, has_of_row,
  has-update_where,
}
use velocity_dispatch.Api.Db.{order_key, driver_key}
use velocity_dispatch.Worker.Db.{
  assignment_key, candidate, selectable, claim_order_for_assignment, available_drivers_for_update,
  insert_assignment, set_driver_busy, claimable, set_assigned, busied_drivers,
}
use velocity_dispatch.Worker.Matching.Defs.{
  assigned, already_handled, WorkerError, sql, AssignIo, assignment_row, event, record_assignment,
  take_driver, match_order, settle, assign_order,
}
use velocity_dispatch.Worker.Matching.View.{Pending, complete, candidates, claimed-one, claimed_db}

-- All calls of the attempt answer.
pub record AllDone (io : AssignIo) : Type 0 where
  pub begin : io.begin ≡ done
  pub claim : io.claim ≡ done
  pub select : io.select ≡ done
  pub insert : io.insert ≡ done
  pub update : io.update ≡ done
  pub finish : io.finish ≡ done

module _ {F : Type 0} where
  has_cons :
      (x : DriverRow F) (k : ℕ) (xs : List (DriverRow F))
      → has driver_key k xs ≡ true
      → has driver_key k (x ∷ xs) ≡ true
  has_cons x k xs h = ground arith

  has_of_mem : (xs : List (DriverRow F)) → All (λ d. has driver_key d.id xs ≡ true) xs
  has_of_mem [] = tt
  has_of_mem (x ∷ xs) = (
    rw (==_refl x.id) refl,
    All-mono (λ d. has driver_key d.id xs ≡ true) (λ d. has driver_key d.id (x ∷ xs) ≡ true) xs
        (λ d h. has_cons x d.id xs h) (has_of_mem xs),
  )

  -- A candidate is a driver of the table.
  pub candidates-has :
      (io : AssignIo) (db : Database F) (d : Driver F)
      → Memᴰ d (candidates io db)
      → has driver_key d.id db.drivers ≡ true
  candidates-has io db d m =
      All-at (λ c. has driver_key c.id db.drivers ≡ true) (candidates io db) m
        (All-map _ (candidate io.clock) _ (
          All-filter _ (selectable io.locked) db.drivers
            (All-mono _ _ db.drivers (λ r h _. h) (has_of_mem db.drivers))))

  claim_done :
      (o : Outcome) (id : Uuid) (db : Database F)
      → o ≡ done
      → Distinct order_key db.orders
      → Pending id db
      → claim_order_for_assignment o id db ≡ (ok true, claimed_db id db)
  unfolding claim_order_for_assignment
  claim_done o id db h d p = rw h (elim (claimed-one id db d) [
    | inl (one, _) ↦ rw one
    | inr (_, no_order) ↦ absurd (no_order p)
  ])

  select_done :
      (o : Outcome) (io : AssignIo) (db : Database F)
      → o ≡ done
      → available_drivers_for_update o io.clock io.locked db ≡ (ok (candidates io db), db)
  unfolding available_drivers_for_update
  select_done o io db h = rw h

  insert_done :
      (o : Outcome) (a : AssignmentRow F) (db : Database F)
      → o ≡ done
      → has assignment_key a.id db.assignments ≡ false
      → has order_key a.order_id db.orders ≡ true
      → has driver_key a.driver_id db.drivers ≡ true
      → execute o db (insert_assignment a db)
        ≡ (ok tt, record db { assignments = db.assignments ++ a ∷ [] })
  unfolding insert_assignment
  insert_done o a db h new ord drv = rw h (rw (new, ord, drv))

  busy_done :
      (o : Outcome) (now : DateTime) (driver_id : Uuid) (db : Database F)
      → o ≡ done
      → execute o db (set_driver_busy now driver_id db)
        ≡ (ok tt, record db { drivers = busied_drivers now driver_id db.drivers })
  unfolding set_driver_busy
  busy_done o now driver_id db h = rw h

  record_done :
      (io : AssignIo) (id driver_id : Uuid) (distance_km : F) (db : Database F)
      → io.insert ≡ done
      → io.update ≡ done
      → has assignment_key io.new_id db.assignments ≡ false
      → has order_key id db.orders ≡ true
      → has driver_key driver_id db.drivers ≡ true
      → record_assignment io id driver_id distance_km db ≡ (
        ok io.new_id,
        record db {
          drivers = busied_drivers io.tx_now driver_id db.drivers;
          assignments = db.assignments ++ assignment_row io id driver_id distance_km ∷ [];
        },
      )
  unfolding record_assignment
  record_done io id driver_id distance_km db i u new ord drv =
      let a = assignment_row io id driver_id distance_km in
      rw (insert_done io.insert a db i new ord drv) (
        rw (
          busy_done io.update io.tx_now driver_id
            (record db { assignments = db.assignments ++ a ∷ [] }) u))

module _ {F : Type 0} ⦃f : Float F⦄ where
  settle_done :
      (o : Outcome) (db t : Database F) (e : DispatchAssigned F)
      → o ≡ done
      → settle o db (ok (assigned e), t) ≡ (ok (assigned e), t)
  unfolding settle
  settle_done o db t e h = rw h

  begin_done :
      {A : Type 0} (o : Outcome) (db : Database F)
      (k : Unit {0} → Database F → Result (WorkerError F) A × Database F)
      → o ≡ done
      → and_then (attempt o (sql unreachable) db (ok tt, db)) k ≡ k tt db
  begin_done o db k h = rw h

  -- Where orders have distinct ids and the new id is fresh, an attempt whose calls all answer gives a
  -- pending order the driver that `nearest_driver` finds among the unlocked available ones, and stores
  -- all three writes.
  pub assign_order_assigns :
      (io : AssignIo) (id : Uuid) (pickup : GeoPoint F) (radius_km : ℕ) (db : Database F)
      (x : Driver F × F)
      → AllDone io
      → Distinct order_key db.orders
      → Pending id db
      → has assignment_key io.new_id db.assignments ≡ false
      → nearest_driver pickup (candidates io db) radius_km ≡ ok x
      → assign_order io id pickup radius_km db
        ≡ (ok (assigned (event io id x.0.id x.1 io.new_id)), complete io id x.0.id x.1 db)
  unfolding assign_order match_order take_driver
  assign_order_assigns io id pickup radius_km db x all d p new near =
      let t = claimed_db id db in
      let there : has order_key id t.orders ≡ true =
        has-update_where order_key (claimable id) set_assigned (λ _. refl) id db.orders
        ∙ has_of_row order_key id db.orders p.0 p.1 in
      let known =
        candidates-has io db x.0
          (nearest_driver-IsEligible pickup (candidates io db) radius_km x near).offered in
      begin_done io.begin db _ all.begin
      ∙ rw (claim_done io.claim id db all.claim d p) (
          rw (select_done io.select io t all.select) (
            rw near (
              rw (record_done io id x.0.id x.1 t all.insert all.update new there known)
                (settle_done io.finish db _ _ all.finish))))

  -- Where orders have distinct ids, an attempt whose calls all answer, for an order that is missing or
  -- not pending, reports so and changes nothing.
  pub assign_order_handled :
      (io : AssignIo) (id : Uuid) (pickup : GeoPoint F) (radius_km : ℕ) (db : Database F)
      → AllDone io
      → Distinct order_key db.orders
      → ¬ Pending id db
      → assign_order io id pickup radius_km db ≡ (ok already_handled, db)
  unfolding assign_order match_order claim_order_for_assignment settle
  assign_order_handled io id pickup radius_km db all d settled =
      begin_done io.begin db _ all.begin ∙ elim (claimed-one id db d) [
        | inl (_, p) ↦ absurd (settled p)
        | inr (none_changed, _) ↦ rw (all.claim, all.finish) (rw none_changed refl)
      ]
