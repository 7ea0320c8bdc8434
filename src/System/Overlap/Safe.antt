-- ===== src/System/Overlap/Safe.antt =====
-- What no overlapping of transactions can break.
use mathlib.Core.Path.{subst}
use velocity_dispatch.Prelude.{◌≤◌, ◌∙◌, ap, true, List, count, ==_refl, ℕ, ◌≡◌, ◌≢◌, sym, Bool}
use velocity_dispatch.Float.{Float}
use velocity_dispatch.Core.Model.{Uuid, Driver}
use velocity_dispatch.Store.{Database, IsSchema}
use velocity_dispatch.Worker.Matching.{Pending, assign_order, assign_order-IsAttempt}
use velocity_dispatch.System.Writes.{Write, IsBalanced}
use velocity_dispatch.System.Schema.{Write-IsSchema}
use velocity_dispatch.System.Keeps.{Write-IsBalanced}
use velocity_dispatch.System.Handlers.{insert_order-Write, upsert_driver-Write, attempt-Write}
use velocity_dispatch.System.Overlap.{
  Shared, Phase, Attempt, recorded, holds_order, holds_driver, holds_key, Overlaps, at_rest,
}
use velocity_dispatch.System.Overlap.Apart.{Apart}
use velocity_dispatch.System.Overlap.Fits.{Fits}
use velocity_dispatch.System.Overlap.Ends.{chosen_held}
use velocity_dispatch.System.Overlap.Serial.{
  Effect, assigns, inserts_order, upserts, answered, Performs, Serial, nothing, next,
  Overlaps-IsApart, Overlaps-Serial,
}
use velocity_dispatch.System.Booked.{free_of}
use velocity_dispatch.System.Booked.Statements.{recorded_free}

module _ {F : Type 0} ⦃f : Float F⦄ where
  Performs-Write : {db t : Database F} (e : Effect F) → Performs db e t → IsSchema db → Write db t
  Performs-Write {db} (assigns a d x) (locked, h) schema =
      let io = answered a.io locked in
      subst (λ p. Write db p.1) h
        (attempt-Write io a.order_id a.pickup a.radius_km db
          (assign_order io a.order_id a.pickup a.radius_km db)
          (assign_order-IsAttempt io a.order_id a.pickup a.radius_km db schema.order_keys))
  Performs-Write {db} (inserts_order io stored o) h schema =
      subst (Write db) (sym h) (insert_order-Write io stored o db)
  Performs-Write {db} (upserts io now id name p status) h schema =
      subst (Write db) (sym h) (upsert_driver-Write io now id name p status db)

  Serial-keeps :
      {db t : Database F} {es : List (Effect F)}
      → Serial db es t
      → IsSchema db
      → IsBalanced db
      → IsSchema t × IsBalanced t
  Serial-keeps nothing schema balanced = (schema, balanced)
  Serial-keeps (next e r a) schema balanced =
      let (s, b) = Serial-keeps r schema balanced in
      let w = Performs-Write e a s in (Write-IsSchema w s, Write-IsBalanced w b)

  different :
      (holds : Phase F → Uuid → Bool) (phase : ℕ → Phase F) (i j : ℕ) (k l : Uuid)
      → Apart holds phase
      → i ≢ j
      → holds (phase i) k ≡ true
      → holds (phase j) l ≡ true
      → k ≢ l
  different holds phase i j k l apart ne mine other e =
      let held : holds (phase j) k ≡ true = subst (λ m. holds (phase j) m ≡ true) (sym e) other in
      let free = apart i j k ne mine in cc

  -- From a database that keeps its constraints, however transactions overlap: of two transactions
  -- that have recorded an assignment and not ended, the orders, the drivers and the ids of the
  -- assignments are different; and in what is committed the order of each is still pending and the
  -- row of its driver still available.
  pub Overlaps-exclusive :
      {db : Database F} {t : Shared F} (i j : ℕ) (a b : Attempt F) (cs bs : List (Driver F))
      (d e : Driver F) (x y : F)
      → IsSchema db
      → Overlaps (at_rest db) t
      → i ≢ j
      → t.phase i ≡ recorded a cs d x
      → t.phase j ≡ recorded b bs e y
      → (d.id ≢ e.id)
        × (a.order_id ≢ b.order_id)
        × (a.io.new_id ≢ b.io.new_id)
        × Pending a.order_id t.db
        × (1 ≤ count (free_of d.id) t.db.drivers)
  Overlaps-exclusive {t = t} i j a b cs bs d e x y schema r ne first second =
      let inv = Overlaps-IsApart schema r in
      let mine = subst (Fits t.db) first (inv.fits i) in
      let other = subst (Fits t.db) second (inv.fits j) in
      (
        different holds_driver t.phase i j d.id e.id inv.drivers ne
            (chosen_held t i a cs d x first mine) (chosen_held t j b bs e y second other),
        different holds_order t.phase i j a.order_id b.order_id inv.orders ne
            (ap (λ p. holds_order p a.order_id) first ∙ ==_refl a.order_id)
            (ap (λ p. holds_order p b.order_id) second ∙ ==_refl b.order_id),
        different holds_key t.phase i j a.io.new_id b.io.new_id inv.keys ne
            (ap (λ p. holds_key p a.io.new_id) first ∙ ==_refl a.io.new_id)
            (ap (λ p. holds_key p b.io.new_id) second ∙ ==_refl b.io.new_id),
        mine.0,
        recorded_free a cs d x t.db mine,
      )

  -- From a database that keeps its constraints, with one assignment for each assigned order and none
  -- for the others: however transactions overlap, what is committed is such a database again.
  pub Overlaps-keeps :
      {db : Database F} {t : Shared F}
      → IsSchema db
      → IsBalanced db
      → Overlaps (at_rest db) t
      → IsSchema t.db × IsBalanced t.db
  Overlaps-keeps schema balanced r = Serial-keeps (Overlaps-Serial schema r) schema balanced
