-- ===== src/Worker/Matching/Locks.antt =====
-- `FOR UPDATE SKIP LOCKED` without a limit: the statement locks every row that it returns.
use velocity_dispatch.Prelude.{
  ℕ, ◌≡◌, refl, ap, ◌⊎◌, inl, inr, Bool, true, false, List, [], ◌∷◌, map, Result, ok, err, arith,
  filter, Memᴰ, All, All-mono, All-mem, Bool-cases, ==_refl,
}
use velocity_dispatch.Float.{Float}
use velocity_dispatch.Core.Model.{Uuid, GeoPoint}
use velocity_dispatch.Core.Geo.{nearest_driver}
use velocity_dispatch.Store.{Database, DriverRow, SqlError, Distinct, has}
use velocity_dispatch.Api.Db.{order_key, driver_key}
use velocity_dispatch.Worker.Db.{selectable, candidate}
use velocity_dispatch.Worker.Matching.Defs.{
  AssignOutcome, assigned, already_handled, no_driver_available, WorkerError, sql, AssignIo,
  assign_order,
}
use velocity_dispatch.Worker.Matching.View.{candidates}
use velocity_dispatch.Worker.Matching.Assign.{IsAttempt, assign_order-IsAttempt}

module _ {F : Type 0} where
  -- The driver rows that an attempt holds from its select to its end.
  unfoldable pub holds : AssignIo → Database F → Uuid → Bool
  holds io db id = has driver_key id (filter (selectable io.locked) db.drivers)

  -- `other` runs while the attempt of `io` is between its select and its end.
  pub record RunsDuring (io other : AssignIo) (db : Database F) : Type 0 where
    pub sees_held : (id : Uuid) → holds io db id ≡ true → other.locked id ≡ true
    pub sees_locked : (id : Uuid) → io.locked id ≡ true → other.locked id ≡ true

  has_own :
      (p : DriverRow F → Bool) (r : DriverRow F) (rows : List (DriverRow F))
      → Memᴰ r rows
      → p r ≡ true
      → has driver_key r.id (filter p rows) ≡ true
  has_own p r [] m h = elim m [ ]
  has_own p r (x ∷ xs) (Memᴰ.head e) h = rw (← e) (rw h (rw (==_refl r.id)))
  has_own p r (x ∷ xs) (Memᴰ.tail m) h = elim (Bool-cases (p x)) [
    | inl kept ↦ rw kept (ground (arith, has_own p r xs m h))
    | inr dropped ↦ rw dropped (has_own p r xs m h)
  ]

  filter-none :
      (p : DriverRow F → Bool) (rows : List (DriverRow F))
      → All (λ r. p r ≡ false) rows
      → filter p rows ≡ []
  filter-none p [] h = refl
  filter-none p (x ∷ xs) (h, hs) = rw h (filter-none p xs hs)

  -- The second attempt finds every available row locked.
  pub RunsDuring-candidates :
      (io other : AssignIo) (db : Database F) → RunsDuring io other db → candidates other db ≡ []
  unfolding holds
  RunsDuring-candidates io other db during = ap (map (candidate other.clock)) (
      filter-none (selectable other.locked) db.drivers (
        All-mono _ _ db.drivers (λ r m. skipped r m (Bool-cases (selectable io.locked r)))
          (All-mem db.drivers)))
    where
      skipped :
          (r : DriverRow F)
          → Memᴰ r db.drivers
          → (selectable io.locked r ≡ true) ⊎ (selectable io.locked r ≡ false)
          → selectable other.locked r ≡ false
      skipped r m (inl mine) =
          let locked = during.sees_held r.id (has_own (selectable io.locked) r db.drivers m mine) in
          ground (arith, locked)
      skipped r m (inr not_mine) = ground (arith, during.sees_locked r.id)

module _ {F : Type 0} ⦃f : Float F⦄ where
  -- Where orders have distinct ids: an attempt, for any order, that sees as locked every row that
  -- another one saw as locked or holds as its candidates, assigns nobody, however many drivers are
  -- available. It changes nothing and ends without a driver, as already handled, or with an error of
  -- the database.
  pub concurrent_attempt_starves :
      (io other : AssignIo) (id : Uuid) (pickup : GeoPoint F) (radius_km : ℕ) (db : Database F)
      → Distinct order_key db.orders
      → RunsDuring io other db
      → let (r, t) = assign_order other id pickup radius_km db in
        (t ≡ db)
        × ((r ≡ ok no_driver_available)
            ⊎ (r ≡ ok already_handled)
            ⊎ ((x : SqlError) × (r ≡ err (sql x))))
  unfolding nearest_driver
  concurrent_attempt_starves io other id pickup r db d during =
      go (assign_order other id pickup r db) (assign_order-IsAttempt other id pickup r db d)
    where
      empty : candidates other db ≡ []
      empty = RunsDuring-candidates io other db during

      go :
          (p : Result (WorkerError F) (AssignOutcome F) × Database F)
          → IsAttempt other id pickup r db p
          → (p.1 ≡ db)
            × ((p.0 ≡ ok no_driver_available)
                ⊎ (p.0 ≡ ok already_handled)
                ⊎ ((x : SqlError) × (p.0 ≡ err (sql x))))
      go (ok (assigned e), t) (_, _, (driver, near, _, _)) = cc (rw empty at near)
      go (ok already_handled, t) a = (a.1, inr (inl refl))
      go (ok no_driver_available, t) a = (a.2, inl refl)
      go (err (sql x), t) (inl e) = (e, inr (inr (x, refl)))
      go (err (sql x), t) (inr (_, (e, (_, _, (driver, near, _, _))))) = cc (rw empty at near)
      go (err _, t) a = absurd a
