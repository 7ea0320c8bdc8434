-- ===== src/System/Booked/Statements.antt =====
-- What a driver gets where transactions overlap, statement by statement.
use mathlib.Core.Path.{subst}
use velocity_dispatch.Prelude.{ℕ, ◌+◌, ◌≤◌, ap, ◌∙◌, inl, inr, count, arith, List}
use velocity_dispatch.Float.{Float}
use velocity_dispatch.Core.Model.{Uuid, Driver}
use velocity_dispatch.Core.Geo.{nearest_driver}
use velocity_dispatch.Core.Geo.Nearest.{nearest_driver-IsEligible}
use velocity_dispatch.Store.{Database, IsSchema}
use velocity_dispatch.Worker.Matching.{candidates}
use velocity_dispatch.System.Handlers.{insert_effect}
use velocity_dispatch.System.Overlap.{
  Shared, Attempt, recorded, Statement, claims, selects, records, commits, drops, inserts,
  upserts_driver, Overlaps, start, later, at_rest,
}
use velocity_dispatch.System.Overlap.Fits.{Fits}
use velocity_dispatch.System.Overlap.Moves.{IsApart}
use velocity_dispatch.System.Overlap.Ends.{alone}
use velocity_dispatch.System.Overlap.Serial.{Overlaps-IsApart}
use velocity_dispatch.System.Booked.{
  booked, of_driver, free_of, says_free, candidates-free, booked-complete, upsert_driver-booked,
}

module _ {F : Type 0} ⦃f : Float F⦄ where
  abbrev says_free_in : {s t : Shared F} → Uuid → Statement s t → ℕ
  says_free_in id (claims i a _ _ _ e) = 0
  says_free_in id (selects i a cs _ _ _ e) = 0
  says_free_in id (records i a cs d x _ _ _ _ e) = 0
  says_free_in id (commits i a cs d x _ e) = 0
  says_free_in id (drops i e) = 0
  says_free_in id (inserts io stored o e) = 0
  says_free_in id (upserts_driver io now k name p status _ e) = says_free k id status

  -- How many upserts of the driver say that it is available.
  abbrev pub upserts_free : {s t : Shared F} → Uuid → Overlaps s t → ℕ
  upserts_free id start = 0
  upserts_free id (later r st) = upserts_free id r + says_free_in id st

  -- What a transaction recorded is for a driver whose committed row is still available.
  pub recorded_free :
      (a : Attempt F) (cs : List (Driver F)) (d : Driver F) (x : F) (db : Database F)
      → Fits db (recorded a cs d x)
      → 1 ≤ count (free_of d.id) db.drivers
  recorded_free a cs d x db (_, shown, near, _) =
      let io = alone a cs in
      candidates-free io db d
        (nearest_driver-IsEligible a.pickup (candidates io db) a.radius_km (d, x)
          (ap (λ l. nearest_driver a.pickup l a.radius_km) shown ∙ near)).offered

  Statement-booked :
      {s t : Shared F} (id : Uuid) (st : Statement s t)
      → IsApart s
      → booked id t.db ≤ booked id s.db + says_free_in id st
  Statement-booked id (claims i a _ _ _ e) inv = rw e (omega arith)
  Statement-booked id (selects i a cs _ _ _ e) inv = rw e (omega arith)
  Statement-booked id (records i a cs d x _ _ _ _ e) inv = rw e (omega arith)
  Statement-booked {s} id (commits i a cs d x at_recorded e) inv =
      let free = recorded_free a cs d x s.db (subst (Fits s.db) at_recorded (inv.fits i)) in
      rw e (omega (arith, booked-complete a.io a.order_id d.id x s.db id free))
  Statement-booked id (drops i e) inv = rw e (omega arith)
  Statement-booked {s} id (inserts io stored o e) inv =
      rw e (elim (insert_effect io stored o s.db) [
        | inl h ↦ rw h (omega arith)
        | inr h ↦ rw h (omega arith)
      ])
  Statement-booked {s} id (upserts_driver io now k name p status _ e) inv =
      rw e (upsert_driver-booked io now k name p status s.db id inv.schema.driver_keys)

  Overlaps-sum :
      {db : Database F} {t : Shared F} (id : Uuid)
      → IsSchema db
      → (r : Overlaps (at_rest db) t) → booked id t.db ≤ booked id db + upserts_free id r
  Overlaps-sum id schema start = omega arith
  Overlaps-sum id schema (later r st) =
      omega (arith, Overlaps-sum id schema r, Statement-booked id st (Overlaps-IsApart schema r))

  -- From a database that keeps its constraints, however transactions overlap with each other and with
  -- the API: the orders of a driver are at most those it had at the beginning, one more if its row
  -- said then that it is available, and one more for each upsert since that says so.
  pub Overlaps-booked :
      {db : Database F} {t : Shared F} (id : Uuid)
      → IsSchema db
      → (r : Overlaps (at_rest db) t)
      → count (of_driver id) t.db.assignments
        ≤ count (of_driver id) db.assignments + count (free_of id) db.drivers + upserts_free id r
  Overlaps-booked id schema r = omega (arith, Overlaps-sum id schema r)
