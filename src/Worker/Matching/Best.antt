-- ===== src/Worker/Matching/Best.antt =====
-- The driver that an attempt takes, in the rows of the table.
use velocity_dispatch.Prelude.{
  ℕ, ◌≡◌, refl, sym, ap, ◌∙◌, Bool, true, false, not, Result, ok, err, arith, Memᴰ, All, All-mono,
  All-map, All-of_map, All-filter, All-of_filter, All-mem, All-at, &&_parts, eq_iff,
}
use mathlib.Core.Path.{subst}
use velocity_dispatch.Float.{Float, ◌≼◌, ◌⊑◌, IsOrdered}
use velocity_dispatch.Core.Model.{Uuid, GeoPoint, Driver}
use velocity_dispatch.Core.Events.{DispatchAssigned}
use velocity_dispatch.Core.Geo.{haversine_km}
use velocity_dispatch.Core.Geo.Nearest.{IsChosen, nearest_driver-IsChosen}
use velocity_dispatch.Store.{Database, DriverRow, Distinct}
use velocity_dispatch.Api.Db.{order_key}
use velocity_dispatch.Worker.Db.{candidate, selectable}
use velocity_dispatch.Worker.Matching.Defs.{
  AssignOutcome, assigned, already_handled, no_driver_available, WorkerError, AssignIo,
  assign_order,
}
use velocity_dispatch.Worker.Matching.View.{candidates}
use velocity_dispatch.Worker.Matching.Assign.{Chose, IsAttempt, assign_order-IsAttempt}

not-true : (b : Bool) → not b ≡ true → b ≡ false
not-true b h = ground arith

module _ {F : Type 0} where
  abbrev pub place : DriverRow F → GeoPoint F
  place r = record { lat = r.lat; lon = r.lon }

  -- The row stands for the candidate, and no other transaction holds it.
  pub record IsFree (io : AssignIo) (db : Database F) (d : Driver F) (row : DriverRow F)
      : Type 0 where
    pub listed : Memᴰ row db.drivers
    pub same_id : row.id ≡ d.id
    pub free : row.status ≡ "available"
    pub unlocked : io.locked row.id ≡ false
    pub here : place row ≡ d.location

  selected :
      (io : AssignIo) (row : DriverRow F)
      → selectable io.locked row ≡ true
      → (row.status ≡ "available") × (io.locked row.id ≡ false)
  selected io row h =
      let (free, held) = &&_parts _ _ h in ((eq_iff row.status "available").0 free, not-true _ held)

  candidates-IsFree :
      (io : AssignIo) (db : Database F)
      → All (λ d. (row : DriverRow F) × IsFree io db d row) (candidates io db)
  candidates-IsFree io db = All-map _ (candidate io.clock) _ (
      All-filter _ (selectable io.locked) db.drivers (
        All-mono _ _ db.drivers
          (λ row m h.
            let (free, held) = selected io row h in
            (row, record { listed = m; same_id = refl; free = free; unlocked = held; here = refl }))
          (All-mem db.drivers)))

module _ {F : Type 0} ⦃f : Float F⦄ (laws : IsOrdered F) where
  open f use {of_ℕ}

  -- The row's driver is available, held by no other transaction, in range, and at least as near as
  -- every other such driver.
  pub record IsBest (io : AssignIo) (pickup : GeoPoint F) (radius_km : ℕ) (db : Database F)
      (e : DispatchAssigned F) (row : DriverRow F) : Type 0 where
    pub listed : Memᴰ row db.drivers
    pub same_id : row.id ≡ e.driver_id
    pub free : row.status ≡ "available"
    pub unlocked : io.locked row.id ≡ false
    pub measured : e.distance_km ≡ haversine_km pickup (place row)
    pub within : e.distance_km ≼ of_ℕ radius_km
    pub closest :
        All
          (λ o.
            o.status ≡ "available"
            → io.locked o.id ≡ false
            → haversine_km pickup (place o) ≼ of_ℕ radius_km
            → e.distance_km ⊑ haversine_km pickup (place o))
          db.drivers

  selectable_of :
      (io : AssignIo) (o : DriverRow F)
      → o.status ≡ "available"
      → io.locked o.id ≡ false
      → selectable io.locked o ≡ true
  selectable_of io o s l = rw ((eq_iff o.status "available").1 s, l)

  Chose-IsBest :
      (io : AssignIo) (id : Uuid) (pickup : GeoPoint F) (radius_km : ℕ) (db t : Database F)
      (e : DispatchAssigned F)
      → Chose io id pickup radius_km db e t
      → (row : DriverRow F) × IsBest io pickup radius_km db e row
  Chose-IsBest io id pickup r db t e (_, _, (driver, near, about, _)) =
      let chosen : IsChosen pickup (candidates io db) r (ok (driver, e.distance_km)) =
        subst (IsChosen pickup (candidates io db) r) near
          (nearest_driver-IsChosen laws pickup (candidates io db) r) in
      let (row, facts) =
        All-at (λ d. (row : DriverRow F) × IsFree io db d row) (candidates io db) chosen.0.offered
          (candidates-IsFree io db) in
      (
        row,
        record {
          listed = facts.listed;
          same_id = facts.same_id ∙ sym (ap (λ (u : DispatchAssigned F). u.driver_id) about);
          free = facts.free;
          unlocked = facts.unlocked;
          measured = chosen.0.measured ∙ ap (haversine_km pickup) (sym facts.here);
          within = chosen.0.within;
          closest =
              All-mono _ _ db.drivers (λ o k s l. k (selectable_of io o s l) refl)
                (All-of_filter _ (selectable io.locked) db.drivers
                  (All-of_map _ (candidate io.clock) _ chosen.1));
        },
      )

  -- Where orders have distinct ids, and for floats with the laws of the two orders: if an attempt
  -- reports an assignment, its driver has a row in the table as it was that is available, not locked,
  -- at the reported distance from the pickup, within the radius, and no such row comes before it by
  -- `total_cmp`.
  pub assign_order-IsBest :
      (io : AssignIo) (id : Uuid) (pickup : GeoPoint F) (radius_km : ℕ) (db : Database F)
      (e : DispatchAssigned F)
      → Distinct order_key db.orders
      → (assign_order io id pickup radius_km db).0 ≡ ok (assigned e)
      → (row : DriverRow F) × IsBest io pickup radius_km db e row
  assign_order-IsBest io id pickup r db e d won =
      go (assign_order io id pickup r db) (assign_order-IsAttempt io id pickup r db d) won
    where
      go :
          (p : Result (WorkerError F) (AssignOutcome F) × Database F)
          → IsAttempt io id pickup r db p
          → p.0 ≡ ok (assigned e)
          → (row : DriverRow F) × IsBest io pickup r db e row
      go (ok (assigned e'), t) a h =
          let same : e' ≡ e = cc in
          Chose-IsBest io id pickup r db t e (subst (λ u. Chose io id pickup r db u t) same a)
      go (ok already_handled, t) a h = cc
      go (ok no_driver_available, t) a h = cc
      go (err x, t) a h = cc
