-- ===== src/System/Overlap.antt =====
-- matching.rs and db.rs of the worker, statement by statement: any number of transactions over one
-- database, which overlap in any order, together with the writes of the API. PostgreSQL runs them
-- under READ COMMITTED: a statement sees what is committed and what its own transaction wrote, and
-- waits for a row that another transaction has changed, unless it says SKIP LOCKED. A transaction
-- holds what it locked until it ends.
pub mod Apart
pub mod Shown
pub mod Fits
pub mod Moves
pub mod Ends
pub mod Serial
pub mod Safe
pub mod Publish
use velocity_dispatch.Prelude.{
  ℕ, ◌≡◌, String, Bool, true, false, List, ok, Outcome, done, ◌==◌, if◌then◌else◌,
}
use velocity_dispatch.Float.{Float}
use velocity_dispatch.Core.Model.{Uuid, DateTime, GeoPoint, Order, Driver, DriverStatus}
use velocity_dispatch.Core.Geo.{nearest_driver}
use velocity_dispatch.Store.{Database, has}
use velocity_dispatch.Api.Db.{insert_order, upsert_driver}
use velocity_dispatch.Worker.Db.{claim_order_for_assignment, available_drivers_for_update}
use velocity_dispatch.Worker.Matching.{AssignIo, record_assignment, claimed_db, complete}

-- The arguments of one `assign_order`, and what it takes from outside.
pub record Attempt (F : Type 0) : Type 0 where
  pub io : AssignIo
  pub order_id : Uuid
  pub pickup : GeoPoint F
  pub radius_km : ℕ

-- How far a transaction is, after each statement that succeeded.
pub data Phase (F : Type 0) : Type 0 where
  idle : Phase F
  claimed : Attempt F → Phase F
  selected : Attempt F → List (Driver F) → Phase F
  recorded : Attempt F → List (Driver F) → Driver F → F → Phase F

pub record Shared (F : Type 0) : Type 0 where
  -- what is committed
  pub db : Database F
  pub phase : ℕ → Phase F

module _ {F : Type 0} where
  abbrev pub candidate_key : Driver F → Uuid
  candidate_key d = d.id

  -- The order row that the transaction has changed.
  abbrev pub holds_order : Phase F → Uuid → Bool
  holds_order idle k = false
  holds_order (claimed a) k = a.order_id == k
  holds_order (selected a cs) k = a.order_id == k
  holds_order (recorded a cs d x) k = a.order_id == k

  -- The driver rows that it has locked.
  abbrev pub holds_driver : Phase F → Uuid → Bool
  holds_driver idle k = false
  holds_driver (claimed a) k = false
  holds_driver (selected a cs) k = has candidate_key k cs
  holds_driver (recorded a cs d x) k = has candidate_key k cs

  -- The key that it has inserted.
  abbrev pub holds_key : Phase F → Uuid → Bool
  holds_key idle k = false
  holds_key (claimed a) k = false
  holds_key (selected a cs) k = false
  holds_key (recorded a cs d x) k = a.io.new_id == k

  abbrev pub update : (ℕ → Phase F) → ℕ → Phase F → ℕ → Phase F
  update phase i p j = if i == j then p else phase j

  abbrev pub move : Shared F → ℕ → Phase F → Shared F
  move s i p = record s { phase = update s.phase i p }

module _ {F : Type 0} ⦃f : Float F⦄ where
  pub data Statement (s t : Shared F) : Type 0 where
    -- the claim changed one row
    claims :
        (i : ℕ) (a : Attempt F)
        → s.phase i ≡ idle
        → ((j : ℕ) → holds_order (s.phase j) a.order_id ≡ false)
        → (claim_order_for_assignment done a.order_id s.db).0 ≡ ok true
        → t ≡ move s i (claimed a)
        → Statement s t
    selects :
        (i : ℕ) (a : Attempt F) (cs : List (Driver F))
        → s.phase i ≡ claimed a
        → ((j : ℕ) (k : Uuid) → holds_driver (s.phase j) k ≡ true → a.io.locked k ≡ true)
        → (available_drivers_for_update done a.io.clock a.io.locked (claimed_db a.order_id s.db)).0
          ≡ ok cs
        → t ≡ move s i (selected a cs)
        → Statement s t
    -- the insert waits for another transaction with the same key
    records :
        (i : ℕ) (a : Attempt F) (cs : List (Driver F)) (d : Driver F) (x : F)
        → s.phase i ≡ selected a cs
        → nearest_driver a.pickup cs a.radius_km ≡ ok (d, x)
        → ((j : ℕ) → holds_key (s.phase j) a.io.new_id ≡ false)
        → (record_assignment a.io a.order_id d.id x (claimed_db a.order_id s.db)).0 ≡ ok a.io.new_id
        → t ≡ move s i (recorded a cs d x)
        → Statement s t
    commits :
        (i : ℕ) (a : Attempt F) (cs : List (Driver F)) (d : Driver F) (x : F)
        → s.phase i ≡ recorded a cs d x
        → t ≡ record { db = complete a.io a.order_id d.id x s.db; phase = update s.phase i idle }
        → Statement s t
    -- a rollback, an error, or the end of the connection
    drops : (i : ℕ) → t ≡ move s i idle → Statement s t
    inserts :
        (io : Outcome) (stored : DateTime) (o : Order F)
        → t ≡ record s { db = (insert_order io stored o s.db).1 }
        → Statement s t
    -- an upsert waits for the row of the driver
    upserts_driver :
        (io : Outcome) (now : DateTime) (id : Uuid) (name : String) (location : GeoPoint F)
        (status : DriverStatus)
        → ((j : ℕ) → holds_driver (s.phase j) id ≡ false)
        → t ≡ record s { db = (upsert_driver io now id name location status s.db).1 }
        → Statement s t

  pub data Overlaps (s : Shared F) : Shared F → Type 0 where
    start : Overlaps s s
    later : {t u : Shared F} → Overlaps s t → Statement t u → Overlaps s u

-- No transaction is open.
abbrev pub at_rest : {F : Type 0} → Database F → Shared F
at_rest db = record { db = db; phase = λ _. idle }
