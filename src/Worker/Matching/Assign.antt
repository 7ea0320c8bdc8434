-- ===== src/Worker/Matching/Assign.antt =====
-- `assign_order`: its result and what it leaves in the database, on every branch.
use velocity_dispatch.Prelude.{
  ℕ, ◌≡◌, refl, ◌⊎◌, inl, inr, false, Result, ok, err, Outcome, done, failed, lost, and_then,
  attempt,
}
use velocity_dispatch.Float.{Float}
use velocity_dispatch.Core.Model.{Uuid, GeoPoint, Driver, no_driver_in_range}
use velocity_dispatch.Core.Events.{DispatchAssigned}
use velocity_dispatch.Core.Geo.{nearest_driver}
use velocity_dispatch.Store.{Database, SqlError, unreachable, Distinct, has}
use velocity_dispatch.Api.Db.{order_key}
use velocity_dispatch.Worker.Db.{assignment_key}
use velocity_dispatch.Worker.Matching.Defs.{
  AssignOutcome, assigned, already_handled, no_driver_available, WorkerError, sql, AssignIo, event,
  match_order, settle, assign_order,
}
use velocity_dispatch.Worker.Matching.Claim.{claimed-not_pending}
use velocity_dispatch.Worker.Matching.View.{Pending, complete, candidates, View, match_order-View}

module _ {F : Type 0} ⦃f : Float F⦄ where
  -- The attempt chose a driver for a pending order: `t` holds all three writes, and the event is
  -- about them.
  abbrev pub Chose :
      AssignIo → Uuid → GeoPoint F → ℕ → Database F → DispatchAssigned F → Database F → Type 0
  Chose io id pickup radius_km db e t =
      Pending id db
      × (has assignment_key io.new_id db.assignments ≡ false)
      × ((driver : Driver F) × (nearest_driver pickup (candidates io db) radius_km
            ≡ ok (driver, e.distance_km))
          × (e ≡ event io id driver.id e.distance_km io.new_id)
          × (t ≡ complete io id driver.id e.distance_km db))

  -- The contract of an attempt.
  abbrev pub IsAttempt :
      AssignIo
      → Uuid
      → GeoPoint F
      → ℕ
      → Database F
      → Result (WorkerError F) (AssignOutcome F) × Database F
      → Type 0
  IsAttempt io id pickup radius_km db (ok (assigned e), t) = Chose io id pickup radius_km db e t
  IsAttempt io id pickup radius_km db (ok already_handled, t) = (¬ Pending id db) × (t ≡ db)
  IsAttempt io id pickup radius_km db (ok no_driver_available, t) =
      Pending id db
      × (nearest_driver pickup (candidates io db) radius_km ≡ err (no_driver_in_range radius_km))
      × (t ≡ db)
  IsAttempt io id pickup radius_km db (err (sql x), t) =
      (t ≡ db)
      ⊎ ((io.finish ≡ lost) × ((e : DispatchAssigned F) × Chose io id pickup radius_km db e t))
  IsAttempt io id pickup radius_km db (err _, t) = ⊥

  settle-IsAttempt :
      (io : AssignIo) (id : Uuid) (pickup : GeoPoint F) (radius_km : ℕ) (db : Database F)
      → (o : Outcome) → io.finish ≡ o
      → (p : Result (WorkerError F) (AssignOutcome F) × Database F)
      → View io id pickup radius_km db p
      → IsAttempt io id pickup radius_km db (settle o db p)
  unfolding settle
  settle-IsAttempt io id pickup r db done h (ok (assigned e), t) v = v
  settle-IsAttempt io id pickup r db failed h (ok (assigned e), t) v = inl refl
  settle-IsAttempt io id pickup r db lost h (ok (assigned e), t) v = inr (h, (e, v))
  settle-IsAttempt io id pickup r db done h (ok already_handled, t) v = (v, refl)
  settle-IsAttempt io id pickup r db failed h (ok already_handled, t) v = inl refl
  settle-IsAttempt io id pickup r db lost h (ok already_handled, t) v = inl refl
  settle-IsAttempt io id pickup r db done h (ok no_driver_available, t) v = (v.0, v.1, refl)
  settle-IsAttempt io id pickup r db failed h (ok no_driver_available, t) v = inl refl
  settle-IsAttempt io id pickup r db lost h (ok no_driver_available, t) v = inl refl
  settle-IsAttempt io id pickup r db o h (err (sql x), t) v = inl refl
  settle-IsAttempt io id pickup r db o h (err _, t) v = v

  begin-IsAttempt :
      (io : AssignIo) (id : Uuid) (pickup : GeoPoint F) (radius_km : ℕ) (db : Database F)
      → (o : Outcome)
      → IsAttempt io id pickup radius_km db
          (settle io.finish db (match_order io id pickup radius_km db))
      → IsAttempt io id pickup radius_km db (
          and_then
            (attempt o (sql unreachable) db (ok tt, db))
            λ _ s. settle io.finish s (match_order io id pickup radius_km s))
  begin-IsAttempt io id pickup r db done h = h
  begin-IsAttempt io id pickup r db failed h = inl refl
  begin-IsAttempt io id pickup r db lost h = inl refl

  -- Where orders have distinct ids, whichever calls of an attempt fail: if it reports an assignment,
  -- the order was pending, `nearest_driver` chose the driver among the unlocked available ones, the
  -- assignment's id is fresh, the event tells of it, and the database holds all three writes. If it
  -- reports that the order is handled, the order is missing or not pending; if it reports that there
  -- is no driver, the order is pending and `nearest_driver` finds none; both leave the database as it
  -- was. The only errors are those of the database; an error leaves the database as it was, or the
  -- answer to the commit was lost and all three writes are stored.
  pub assign_order-IsAttempt :
      (io : AssignIo) (id : Uuid) (pickup : GeoPoint F) (radius_km : ℕ) (db : Database F)
      → Distinct order_key db.orders
      → IsAttempt io id pickup radius_km db (assign_order io id pickup radius_km db)
  unfolding assign_order
  assign_order-IsAttempt io id pickup r db d = begin-IsAttempt io id pickup r db io.begin (
      settle-IsAttempt io id pickup r db io.finish refl (match_order io id pickup r db)
        (match_order-View io id pickup r db d))

module _ {F : Type 0} where
  -- After the three writes the order is not pending.
  pub complete-not-Pending :
      (io : AssignIo) (id driver_id : Uuid) (distance_km : F) (db : Database F)
      → ¬ Pending id (complete io id driver_id distance_km db)
  complete-not-Pending io id driver_id distance_km db (row, found, p) =
      claimed-not_pending id db.orders row found p

module _ {F : Type 0} ⦃f : Float F⦄ where
  -- Where orders have distinct ids, an attempt for an order that is missing or not pending leaves the
  -- database as it is, and ends as already handled or with an error of the database.
  pub assign_order_once :
      (io : AssignIo) (id : Uuid) (pickup : GeoPoint F) (radius_km : ℕ) (db : Database F)
      → Distinct order_key db.orders
      → ¬ Pending id db
      → let (r, t) = assign_order io id pickup radius_km db in
        (t ≡ db) × ((r ≡ ok already_handled) ⊎ ((x : SqlError) × (r ≡ err (sql x))))
  assign_order_once io id pickup radius_km db d settled =
      go (assign_order io id pickup radius_km db)
        (assign_order-IsAttempt io id pickup radius_km db d)
    where
      go :
          (p : Result (WorkerError F) (AssignOutcome F) × Database F)
          → IsAttempt io id pickup radius_km db p
          → (p.1 ≡ db) × ((p.0 ≡ ok already_handled) ⊎ ((x : SqlError) × (p.0 ≡ err (sql x))))
      go (ok (assigned e), t) a = absurd (settled a.0)
      go (ok already_handled, t) a = (a.1, inl refl)
      go (ok no_driver_available, t) a = absurd (settled a.0)
      go (err (sql x), t) (inl same) = (same, inr (x, refl))
      go (err (sql x), t) (inr (_, (e, a))) = absurd (settled a.0)
      go (err _, t) a = absurd a
