-- ===== src/Core/Geo/Reorder.antt =====
-- The rows of a `SELECT` come in no particular order: `nearest_driver` finds a driver at the same
-- distance whatever the order of the candidates.
use mathlib.Core.Path.{subst}
use velocity_dispatch.Prelude.{ℕ, ◌≡◌, sym, ◌∙◌, List, Memᴰ, Result, ok, err, All-at}
use velocity_dispatch.Float.{Float, ◌⊑◌, ◌≼◌, IsOrdered}
use velocity_dispatch.Core.Model.{GeoPoint, Driver, CoreError, available}
use velocity_dispatch.Core.Geo.{haversine_km, nearest_driver}
use velocity_dispatch.Core.Geo.Nearest.{IsEligible, AllEligible, IsChosen, nearest_driver-IsChosen}

module _ {F : Type 0} ⦃f : Float F⦄ where
  -- Each list has the drivers of the other, in any order and any number of times.
  pub record SameDrivers (cs ds : List (Driver F)) : Type 0 where
    pub there : (d : Driver F) → Memᴰ d cs → Memᴰ d ds
    pub back : (d : Driver F) → Memᴰ d ds → Memᴰ d cs

  -- Two drivers at equal distances, or the same error.
  abbrev pub Agree :
      Result (CoreError F) (Driver F × F) → Result (CoreError F) (Driver F × F) → Type 0
  Agree (ok x) (ok y) = (x.1 ⊑ y.1) × (y.1 ⊑ x.1)
  Agree (err d) (err e) = d ≡ e
  Agree (ok x) (err e) = ⊥
  Agree (err d) (ok y) = ⊥

  -- What holds of all eligible candidates of a list holds of an eligible one of the other.
  at_eligible :
      (P : Driver F × F → Type 0) (pickup : GeoPoint F) (r : ℕ) (cs ds : List (Driver F))
      (x : Driver F × F)
      → ((d : Driver F) → Memᴰ d ds → Memᴰ d cs)
      → AllEligible pickup r P cs
      → IsEligible pickup r ds x
      → P x
  at_eligible P pickup r cs ds x back all e =
      let near = subst (λ m. m ≼ f.of_ℕ r) e.measured e.within in
      subst (λ m. P (x.0, m)) (sym e.measured)
        (All-at
          (λ c.
            c.status ≡ available
            → haversine_km pickup c.location ≼ f.of_ℕ r
            → P (c, haversine_km pickup c.location))
          cs (back x.0 e.offered) all e.free near)

  module _ (laws : IsOrdered F) where
    agree :
        (pickup : GeoPoint F) (r : ℕ) (cs ds : List (Driver F))
        (p q : Result (CoreError F) (Driver F × F))
        → SameDrivers cs ds
        → IsChosen pickup cs r p
        → IsChosen pickup ds r q
        → Agree p q
    agree pickup r cs ds (ok x) (ok y) same (ex, allx) (ey, ally) = (
      at_eligible (λ z. x.1 ⊑ z.1) pickup r cs ds y same.back allx ey,
      at_eligible (λ z. y.1 ⊑ z.1) pickup r ds cs x same.there ally ex,
    )
    agree pickup r cs ds (ok x) (err e) same (ex, allx) (_, ally) =
        at_eligible (λ _. ⊥) pickup r ds cs x same.there ally ex
    agree pickup r cs ds (err d) (ok y) same (_, allx) (ey, ally) =
        at_eligible (λ _. ⊥) pickup r cs ds y same.back allx ey
    agree pickup r cs ds (err d) (err e) same (a, _) (b, _) = a ∙ sym b

    -- For floats with the laws of the two orders: on two lists of the same drivers, in whatever order,
    -- `nearest_driver` finds drivers at distances of which neither comes before the other by
    -- `total_cmp`, or reports the same error.
    nearest_driver_reorder :
        (pickup : GeoPoint F) (cs ds : List (Driver F)) (radius_km : ℕ)
        → SameDrivers cs ds
        → Agree (nearest_driver pickup cs radius_km) (nearest_driver pickup ds radius_km)
    nearest_driver_reorder pickup cs ds r same =
        agree pickup r cs ds (nearest_driver pickup cs r) (nearest_driver pickup ds r) same
          (nearest_driver-IsChosen laws pickup cs r) (nearest_driver-IsChosen laws pickup ds r)
