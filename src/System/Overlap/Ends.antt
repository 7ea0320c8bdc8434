-- ===== src/System/Overlap/Ends.antt =====
-- The end of a transaction and the writes of the API keep the transactions apart.
use mathlib.Core.Path.{subst}
use velocity_dispatch.Prelude.{
  ℕ, ◌≡◌, ◌≢◌, refl, sym, ◌∙◌, ap, inl, inr, true, List, Result, ok, err, done, Bool-cases, ◌==◌,
  ==_iff, ==_refl,
}
use velocity_dispatch.Float.{Float}
use velocity_dispatch.Core.Model.{Driver}
use velocity_dispatch.Core.Geo.{nearest_driver}
use velocity_dispatch.Core.Geo.Nearest.{nearest_driver-IsEligible}
use velocity_dispatch.Store.{Database}
use velocity_dispatch.Api.Db.{insert_order, upsert_driver}
use velocity_dispatch.Api.Routes.{sent_row}
use velocity_dispatch.Worker.Db.{available_drivers_for_update}
use velocity_dispatch.Worker.Matching.{AssignIo, complete, candidates, candidates-has}
use velocity_dispatch.System.Writes.{Write, same, assigns}
use velocity_dispatch.System.Schema.{Write-IsSchema}
use velocity_dispatch.System.Handlers.{
  insert_order-Write, upsert_driver-Write, insert_effect, upsert_effect,
}
use velocity_dispatch.System.Overlap.{
  Attempt, idle, recorded, Shared, holds_order, holds_driver, holds_key, update, move, Statement,
  claims, selects, records, commits, drops, inserts, upserts_driver,
}
use velocity_dispatch.System.Overlap.Apart.{Every-update, Apart-update}
use velocity_dispatch.System.Overlap.Shown.{others}
use velocity_dispatch.System.Overlap.Fits.{Fits, Fits-insert, Fits-upsert, Fits-complete}
use velocity_dispatch.System.Overlap.Moves.{
  IsApart, has-mem, claims-IsApart, selects-IsApart, records-IsApart,
}

ok-injective : {E A : Type 0} {a b : A} → ◌≡◌ {A = Result E A} (ok a) (ok b) → a ≡ b
ok-injective {a = a} e = ap (λ r. elim r [ ok x ↦ x | err _ ↦ a ]) e

module _ {F : Type 0} where
  -- The transaction's calls all answer, and it sees its candidates only.
  abbrev pub alone : Attempt F → List (Driver F) → AssignIo
  alone a cs = record a.io {
    begin = done;
    claim = done;
    select = done;
    insert = done;
    update = done;
    finish = done;
    locked = others cs;
  }

module _ {F : Type 0} ⦃f : Float F⦄ where
  -- The driver of a commit is among the transaction's candidates.
  pub chosen_held :
      (s : Shared F) (i : ℕ) (a : Attempt F) (cs : List (Driver F)) (d : Driver F) (x : F)
      → s.phase i ≡ recorded a cs d x
      → Fits s.db (recorded a cs d x)
      → holds_driver (s.phase i) d.id ≡ true
  chosen_held s i a cs d x at_recorded (_, _, near, _) =
      ap (λ p. holds_driver p d.id) at_recorded
      ∙ has-mem d cs (nearest_driver-IsEligible a.pickup cs a.radius_km (d, x) near).offered

  pub commits-Write :
      (a : Attempt F) (cs : List (Driver F)) (d : Driver F) (x : F) (db : Database F)
      → Fits db (recorded a cs d x)
      → Write db (complete a.io a.order_id d.id x db)
  commits-Write a cs d x db (p, shown, near, fresh) =
      let io = alone a cs in
      assigns a.io a.order_id d.id x p fresh
        (candidates-has io db d
          (nearest_driver-IsEligible a.pickup (candidates io db) a.radius_km (d, x)
            (ap (λ l. nearest_driver a.pickup l a.radius_km) shown ∙ near)).offered)
        refl

  commits-IsApart :
      (s : Shared F) (i : ℕ) (a : Attempt F) (cs : List (Driver F)) (d : Driver F) (x : F)
      → s.phase i ≡ recorded a cs d x
      → IsApart s
      → IsApart
          (record { db = complete a.io a.order_id d.id x s.db; phase = update s.phase i idle })
  commits-IsApart s i a cs d x at_recorded inv =
      let mine : Fits s.db (recorded a cs d x) = subst (Fits s.db) at_recorded (inv.fits i) in
      record {
        schema = Write-IsSchema (commits-Write a cs d x s.db mine) inv.schema;
        fits = λ j. elim (Bool-cases (i == j)) [
          | inl e ↦ rw e tt
          | inr e ↦ rw e (
              let ne : i ≢ j = λ h. cc ((==_iff i j).1 h) in
              Fits-complete a.io a.order_id d.id x s.db (s.phase j)
                (inv.orders i j a.order_id ne
                  (ap (λ p. holds_order p a.order_id) at_recorded ∙ ==_refl a.order_id))
                (inv.drivers i j d.id ne (chosen_held s i a cs d x at_recorded mine))
                (inv.keys i j a.io.new_id ne
                  (ap (λ p. holds_key p a.io.new_id) at_recorded ∙ ==_refl a.io.new_id))
                (inv.fits j))
        ];
        orders = Apart-update holds_order s.phase i idle inv.orders (λ j k ne h. cc);
        drivers = Apart-update holds_driver s.phase i idle inv.drivers (λ j k ne h. cc);
        keys = Apart-update holds_key s.phase i idle inv.keys (λ j k ne h. cc);
      }

  drops-IsApart : (s : Shared F) (i : ℕ) → IsApart s → IsApart (move s i idle)
  drops-IsApart s i inv = record {
    schema = inv.schema;
    fits = Every-update (Fits s.db) s.phase i idle inv.fits tt;
    orders = Apart-update holds_order s.phase i idle inv.orders (λ j k ne h. cc);
    drivers = Apart-update holds_driver s.phase i idle inv.drivers (λ j k ne h. cc);
    keys = Apart-update holds_key s.phase i idle inv.keys (λ j k ne h. cc);
  }

  -- A write of the API that what the transactions have seen survives.
  writes-IsApart :
      (s : Shared F) (db : Database F)
      → Write s.db db
      → ((i : ℕ) → Fits db (s.phase i))
      → IsApart s
      → IsApart (record s { db = db })
  writes-IsApart s db w fits inv = record {
    schema = Write-IsSchema w inv.schema;
    fits = fits;
    orders = inv.orders;
    drivers = inv.drivers;
    keys = inv.keys;
  }

  pub Statement-IsApart : {s t : Shared F} → Statement s t → IsApart s → IsApart t
  unfolding available_drivers_for_update
  Statement-IsApart {s} (claims i a at_idle free claim e) inv =
      subst IsApart (sym e) (claims-IsApart s i a at_idle free claim inv)
  Statement-IsApart {s} (selects i a cs at_claimed skips chosen e) inv =
      subst IsApart (sym e) (selects-IsApart s i a cs at_claimed skips (ok-injective chosen) inv)
  Statement-IsApart {s} (records i a cs d x at_selected near free written e) inv =
      subst IsApart (sym e) (records-IsApart s i a cs d x at_selected near free written inv)
  Statement-IsApart {s} (commits i a cs d x at_recorded e) inv =
      subst IsApart (sym e) (commits-IsApart s i a cs d x at_recorded inv)
  Statement-IsApart {s} (drops i e) inv = subst IsApart (sym e) (drops-IsApart s i inv)
  Statement-IsApart {s} (inserts io stored o e) inv = subst IsApart (sym e) (
      writes-IsApart s (insert_order io stored o s.db).1 (insert_order-Write io stored o s.db)
        (λ i. elim (insert_effect io stored o s.db) [
          | inl h ↦ rw h (inv.fits i)
          | inr h ↦ rw h (Fits-insert stored o s.db (s.phase i) (inv.fits i))
        ])
        inv)
  Statement-IsApart {s} (upserts_driver io now id name p status free e) inv =
      subst IsApart (sym e) (
        writes-IsApart s (upsert_driver io now id name p status s.db).1
          (upsert_driver-Write io now id name p status s.db)
          (λ i. elim (upsert_effect io now id name p status s.db) [
            | inl h ↦ rw h (inv.fits i)
            | inr h ↦
                rw h (
                  Fits-upsert (sent_row now id name p status) s.db (s.phase i) (free i)
                    (inv.fits i))
          ])
          inv)

  -- A statement makes one write of the database, or none.
  pub Statement-Write : {s t : Shared F} → Statement s t → IsApart s → Write s.db t.db
  Statement-Write (claims i a _ _ _ e) inv = same (ap (λ (u : Shared F). u.db) e)
  Statement-Write (selects i a cs _ _ _ e) inv = same (ap (λ (u : Shared F). u.db) e)
  Statement-Write (records i a cs d x _ _ _ _ e) inv = same (ap (λ (u : Shared F). u.db) e)
  Statement-Write {s} (commits i a cs d x recorded_at e) inv =
      subst (λ (u : Shared F). Write s.db u.db) (sym e)
        (commits-Write a cs d x s.db (subst (Fits s.db) recorded_at (inv.fits i)))
  Statement-Write (drops i e) inv = same (ap (λ (u : Shared F). u.db) e)
  Statement-Write {s} (inserts io stored o e) inv =
      subst (λ (u : Shared F). Write s.db u.db) (sym e) (insert_order-Write io stored o s.db)
  Statement-Write {s} (upserts_driver io now id name p status _ e) inv =
      subst (λ (u : Shared F). Write s.db u.db) (sym e)
        (upsert_driver-Write io now id name p status s.db)
