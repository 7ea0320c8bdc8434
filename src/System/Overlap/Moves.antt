-- ===== src/System/Overlap/Moves.antt =====
-- The statements of one transaction before its end keep the transactions apart.
use mathlib.Core.Path.{subst}
use velocity_dispatch.Prelude.{
  ℕ, ◌≡◌, ◌∙◌, ap, inl, inr, true, false, List, [], ◌∷◌, map, filter, Memᴰ, ok, done, Bool-cases,
  ==_iff, ==_refl, arith,
}
use velocity_dispatch.Float.{Float}
use velocity_dispatch.Core.Model.{Uuid, Driver}
use velocity_dispatch.Core.Geo.{nearest_driver}
use velocity_dispatch.Store.{IsSchema, has}
use velocity_dispatch.Worker.Db.{selectable, candidate, claim_order_for_assignment}
use velocity_dispatch.Worker.Matching.{claimed_db, claimed-one, record_assignment, record_cases}
use velocity_dispatch.System.Overlap.{
  Attempt, idle, claimed, selected, recorded, Shared, holds_order, holds_driver, holds_key,
  candidate_key, move,
}
use velocity_dispatch.System.Overlap.Apart.{Every-update, Apart, Apart-update}
use velocity_dispatch.System.Overlap.Shown.{Shows, select-Shows, has-shown}
use velocity_dispatch.System.Overlap.Fits.{Fits}

module _ {F : Type 0} ⦃f : Float F⦄ where
  pub record IsApart (s : Shared F) : Type 0 where
    pub schema : IsSchema s.db
    pub fits : (i : ℕ) → Fits s.db (s.phase i)
    pub orders : Apart holds_order s.phase
    pub drivers : Apart holds_driver s.phase
    pub keys : Apart holds_key s.phase

  pub has-mem : (d : Driver F) (cs : List (Driver F)) → Memᴰ d cs → has candidate_key d.id cs ≡ true
  has-mem d [] m = elim m [ ]
  has-mem d (x ∷ xs) (Memᴰ.head e) = rw (← e) (rw (==_refl d.id))
  has-mem d (x ∷ xs) (Memᴰ.tail m) = ground (arith, has-mem d xs m)

  pub claims-IsApart :
      (s : Shared F) (i : ℕ) (a : Attempt F)
      → s.phase i ≡ idle
      → ((j : ℕ) → holds_order (s.phase j) a.order_id ≡ false)
      → (claim_order_for_assignment done a.order_id s.db).0 ≡ ok true
      → IsApart s
      → IsApart (move s i (claimed a))
  unfolding claim_order_for_assignment
  claims-IsApart s i a at_idle free claim inv = record {
    schema = inv.schema;
    fits =
        Every-update (Fits s.db) s.phase i (claimed a) inv.fits
          (elim (claimed-one a.order_id s.db inv.schema.order_keys) [
            | inl (_, p) ↦ p
            | inr (none_changed, _) ↦ cc
          ]);
    orders =
        Apart-update holds_order s.phase i (claimed a) inv.orders
          (λ j k ne mine. rw (← (==_iff a.order_id k).0 mine) (free j));
    drivers = Apart-update holds_driver s.phase i (claimed a) inv.drivers (λ j k ne mine. cc);
    keys = Apart-update holds_key s.phase i (claimed a) inv.keys (λ j k ne mine. cc);
  }

  pub selects-IsApart :
      (s : Shared F) (i : ℕ) (a : Attempt F) (cs : List (Driver F))
      → s.phase i ≡ claimed a
      → ((j : ℕ) (k : Uuid) → holds_driver (s.phase j) k ≡ true → a.io.locked k ≡ true)
      → map (candidate a.io.clock) (filter (selectable a.io.locked) s.db.drivers) ≡ cs
      → IsApart s
      → IsApart (move s i (selected a cs))
  selects-IsApart s i a cs at_claimed skips chosen inv = record {
    schema = inv.schema;
    fits = Every-update (Fits s.db) s.phase i (selected a cs) inv.fits (
      subst (Fits s.db) at_claimed (inv.fits i),
      subst (Shows a.io.clock s.db.drivers) chosen
          (select-Shows a.io.clock a.io.locked s.db.drivers),
    );
    orders =
        Apart-update holds_order s.phase i (selected a cs) inv.orders
          (λ j k ne mine. inv.orders i j k ne (ap (λ p. holds_order p k) at_claimed ∙ mine));
    drivers = Apart-update holds_driver s.phase i (selected a cs) inv.drivers (λ j k ne mine.
        elim (Bool-cases (holds_driver (s.phase j) k)) [
          | inl theirs ↦
              let unlocked =
                has-shown a.io.clock a.io.locked k s.db.drivers
                  (ap (has candidate_key k) chosen ∙ mine) in
              cc (skips j k theirs, unlocked)
          | inr free ↦ free
        ]);
    keys = Apart-update holds_key s.phase i (selected a cs) inv.keys (λ j k ne mine. cc);
  }

  pub records-IsApart :
      (s : Shared F) (i : ℕ) (a : Attempt F) (cs : List (Driver F)) (d : Driver F) (x : F)
      → s.phase i ≡ selected a cs
      → nearest_driver a.pickup cs a.radius_km ≡ ok (d, x)
      → ((j : ℕ) → holds_key (s.phase j) a.io.new_id ≡ false)
      → (record_assignment a.io a.order_id d.id x (claimed_db a.order_id s.db)).0 ≡ ok a.io.new_id
      → IsApart s
      → IsApart (move s i (recorded a cs d x))
  records-IsApart s i a cs d x at_selected near free written inv =
      let old : Fits s.db (selected a cs) = subst (Fits s.db) at_selected (inv.fits i) in
      record {
        schema = inv.schema;
        fits = Every-update (Fits s.db) s.phase i (recorded a cs d x) inv.fits (
          old.0,
          old.1,
          near,
          elim (record_cases a.io a.order_id d.id x (claimed_db a.order_id s.db)) [
            | inl (_, fresh) ↦ fresh
            | inr (e, t, h) ↦ cc (ap (λ p. p.0) h)
          ],
        );
        orders =
            Apart-update holds_order s.phase i (recorded a cs d x) inv.orders
              (λ j k ne mine. inv.orders i j k ne (ap (λ p. holds_order p k) at_selected ∙ mine));
        drivers =
            Apart-update holds_driver s.phase i (recorded a cs d x) inv.drivers
              (λ j k ne mine. inv.drivers i j k ne (ap (λ p. holds_driver p k) at_selected ∙ mine));
        keys =
            Apart-update holds_key s.phase i (recorded a cs d x) inv.keys
              (λ j k ne mine. rw (← (==_iff a.io.new_id k).0 mine) (free j));
      }
