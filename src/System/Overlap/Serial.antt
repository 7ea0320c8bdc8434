-- ===== src/System/Overlap/Serial.antt =====
-- Overlapping transactions do what the same attempts do one after the other.
use mathlib.Core.Path.{subst}
use velocity_dispatch.Prelude.{
  ◌≡◌, refl, sym, ◌∙◌, ap, Bool, List, [], ◌∷◌, ◌++◌, String, ok, Outcome, done,
}
use velocity_dispatch.Float.{Float}
use velocity_dispatch.Core.Model.{Uuid, DateTime, GeoPoint, Driver, DriverStatus, Order}
use velocity_dispatch.Core.Geo.{nearest_driver}
use velocity_dispatch.Store.{Database, IsSchema}
use velocity_dispatch.Api.Db.{insert_order, upsert_driver}
use velocity_dispatch.Worker.Matching.{
  AssignIo, assigned, complete, assign_order, assign_order_assigns, event,
}
use velocity_dispatch.System.Overlap.{
  Attempt, recorded, Shared, Statement, claims, selects, records, commits, drops, inserts,
  upserts_driver, Overlaps, start, later, at_rest,
}
use velocity_dispatch.System.Overlap.Shown.{others}
use velocity_dispatch.System.Overlap.Fits.{Fits}
use velocity_dispatch.System.Overlap.Ends.{alone, Statement-IsApart}
use velocity_dispatch.System.Overlap.Moves.{IsApart}

-- What a history commits: the attempts that assign, and the writes of the API.
pub data Effect (F : Type 0) : Type 0 where
  assigns : Attempt F → Driver F → F → Effect F
  inserts_order : Outcome → DateTime → Order F → Effect F
  upserts : Outcome → DateTime → Uuid → String → GeoPoint F → DriverStatus → Effect F

-- The calls of an attempt all answer, and it sees those rows as locked.
abbrev pub answered : AssignIo → (Uuid → Bool) → AssignIo
answered io locked = record io {
  begin = done;
  claim = done;
  select = done;
  insert = done;
  update = done;
  finish = done;
  locked = locked;
}

module _ {F : Type 0} ⦃f : Float F⦄ where
  -- The effects of a history with one more statement.
  abbrev and_effect : {s t : Shared F} → List (Effect F) → Statement s t → List (Effect F)
  and_effect es (claims i a _ _ _ e) = es
  and_effect es (selects i a cs _ _ _ e) = es
  and_effect es (records i a cs d x _ _ _ _ e) = es
  and_effect es (commits i a cs d x _ e) = es ++ assigns a d x ∷ []
  and_effect es (drops i e) = es
  and_effect es (inserts io stored o e) = es ++ inserts_order io stored o ∷ []
  and_effect es (upserts_driver io now id name p status _ e) =
      es ++ upserts io now id name p status ∷ []

  -- In the order of the commits.
  abbrev pub effects : {s t : Shared F} → Overlaps s t → List (Effect F)
  effects start = []
  effects (later r st) = and_effect (effects r) st

  -- The code does this by itself, with no other transaction beside it: an attempt runs as a whole,
  -- with some rows locked, and reports that driver for its order.
  abbrev pub Performs : Database F → Effect F → Database F → Type 0
  Performs db (assigns a d x) t =
      (locked : Uuid → Bool) × (assign_order (answered a.io locked) a.order_id a.pickup a.radius_km
          db
        ≡ (ok (assigned (event a.io a.order_id d.id x a.io.new_id)), t))
  Performs db (inserts_order io stored o) t = t ≡ (insert_order io stored o db).1
  Performs db (upserts io now id name p status) t = t ≡ (upsert_driver io now id name p status db).1

  -- These effects, one after the other, and no others.
  pub data Serial (db : Database F) : List (Effect F) → Database F → Type 0 where
    nothing : Serial db [] db
    next :
        {t u : Database F} {es : List (Effect F)} (e : Effect F)
        → Serial db es t
        → Performs t e u
        → Serial db (es ++ e ∷ []) u

  -- A commit is a whole attempt on what is committed.
  commits-Performs :
      (a : Attempt F) (cs : List (Driver F)) (d : Driver F) (x : F) (db : Database F)
      → IsSchema db
      → Fits db (recorded a cs d x)
      → Performs db (assigns a d x) (complete a.io a.order_id d.id x db)
  commits-Performs a cs d x db schema (p, shown, near, fresh) = (
    others cs,
    assign_order_assigns (alone a cs) a.order_id a.pickup a.radius_km db (d, x)
        (record {
          begin = refl;
          claim = refl;
          select = refl;
          insert = refl;
          update = refl;
          finish = refl;
        })
        schema.order_keys p fresh (ap (λ l. nearest_driver a.pickup l a.radius_km) shown ∙ near),
  )

  Statement-Serial :
      {db : Database F} {s t : Shared F} {es : List (Effect F)}
      → (st : Statement s t) → IsApart s
      → Serial db es s.db
      → Serial db (and_effect es st) t.db
  Statement-Serial {db} {es = es} (claims i a at_idle free claim e) inv r =
      subst (λ (u : Shared F). Serial db es u.db) (sym e) r
  Statement-Serial {db} {es = es} (selects i a cs at_claimed skips chosen e) inv r =
      subst (λ (u : Shared F). Serial db es u.db) (sym e) r
  Statement-Serial {db} {es = es} (records i a cs d x at_selected near free written e) inv r =
      subst (λ (u : Shared F). Serial db es u.db) (sym e) r
  Statement-Serial {db} {s} {es = es} (commits i a cs d x at_recorded e) inv r =
      subst (λ (u : Shared F). Serial db (es ++ assigns a d x ∷ []) u.db) (sym e)
        (next (assigns a d x) r
          (commits-Performs a cs d x s.db inv.schema (subst (Fits s.db) at_recorded (inv.fits i))))
  Statement-Serial {db} {es = es} (drops i e) inv r =
      subst (λ (u : Shared F). Serial db es u.db) (sym e) r
  Statement-Serial {db} {es = es} (inserts io stored o e) inv r =
      subst (λ (u : Shared F). Serial db (es ++ inserts_order io stored o ∷ []) u.db) (sym e)
        (next (inserts_order io stored o) r refl)
  Statement-Serial {db} {es = es} (upserts_driver io now id name p status free e) inv r =
      subst (λ (u : Shared F). Serial db (es ++ upserts io now id name p status ∷ []) u.db) (sym e)
        (next (upserts io now id name p status) r refl)

  at_rest-IsApart : (db : Database F) → IsSchema db → IsApart (at_rest db)
  at_rest-IsApart db schema = record {
    schema = schema;
    fits = λ i. tt;
    orders = λ i j k ne h. refl;
    drivers = λ i j k ne h. refl;
    keys = λ i j k ne h. refl;
  }

  pub Overlaps-IsApart :
      {db : Database F} {t : Shared F} → IsSchema db → Overlaps (at_rest db) t → IsApart t
  Overlaps-IsApart {db} schema start = at_rest-IsApart db schema
  Overlaps-IsApart schema (later r st) = Statement-IsApart st (Overlaps-IsApart schema r)

  -- From a database that keeps its constraints: what overlapping transactions and the API have
  -- committed is what the same effects leave one after the other, in the order of the commits and
  -- with nothing added. Each attempt that committed is a run of `assign_order` on the database that
  -- the effects before it left, with some rows seen as locked, which reports the same driver at the
  -- same distance for the same order; each write of the API is its call.
  pub Overlaps-Serial :
      {db : Database F} {t : Shared F}
      → IsSchema db
      → (r : Overlaps (at_rest db) t) → Serial db (effects r) t.db
  Overlaps-Serial schema start = nothing
  Overlaps-Serial schema (later r st) =
      Statement-Serial st (Overlaps-IsApart schema r) (Overlaps-Serial schema r)
