-- ===== src/Core/Geo/Here.antt =====
-- A driver who stands at the pickup.
use velocity_dispatch.Prelude.{ℕ, ◌≡◌, List, Memᴰ, Result, ok, err, All-at, arith}
use mathlib.Core.Path.{subst}
use velocity_dispatch.Float.{Float, ◌≼◌, ◌⊑◌, IsOrdered, IsExactAtZero}
use velocity_dispatch.Core.Model.{GeoPoint, Driver, CoreError, available}
use velocity_dispatch.Core.Coordinates.{IsOnEarth}
use velocity_dispatch.Core.Geo.{haversine_km, nearest_driver}
use velocity_dispatch.Core.Geo.Nearest.{IsChosen, nearest_driver-IsChosen}

module _ {F : Type 0} ⦃f : Float F⦄ (zeros : IsExactAtZero F) where
  open f use {of_ℕ}
  open zeros use {
    sub_self, div_zero, sin_zero, square_zero, cos_mul_zero, add_zero, sqrt_zero, asin_zero,
    mul_zero,
  }

  -- For floats that are exact at zero: the distance from a point on Earth to itself is 0.
  haversine_km_here : (p : GeoPoint F) → IsOnEarth p → haversine_km p p ≡ of_ℕ 0
  unfolding haversine_km
  haversine_km_here p e = cc (
    sub_self 90 p.lat (omega arith) e.south e.north,
    sub_self 180 p.lon (omega arith) e.west e.east,
    div_zero,
    sin_zero,
    square_zero,
    cos_mul_zero 90 p.lat (omega arith) e.south e.north,
    add_zero,
    sqrt_zero,
    asin_zero,
    mul_zero 2,
    mul_zero 6371,
  )

  -- What is found where the candidate is as near as can be.
  abbrev IsFoundAt : F → Result (CoreError F) (Driver F × F) → Type 0
  IsFoundAt dist (ok x) = x.1 ⊑ dist
  IsFoundAt dist (err e) = ⊥

  -- For floats with the laws of the two orders that are exact at zero: with an available candidate at
  -- the very place of a pickup on Earth, `nearest_driver` finds a driver within any radius, also 0,
  -- at a distance that does not come after 0 by `total_cmp`.
  nearest_driver_here :
      IsOrdered F
      → (pickup : GeoPoint F) (candidates : List (Driver F)) (radius_km : ℕ) (d : Driver F)
      → IsOnEarth pickup
      → Memᴰ d candidates
      → d.status ≡ available
      → d.location ≡ pickup
      → IsFoundAt (of_ℕ 0) (nearest_driver pickup candidates radius_km)
  nearest_driver_here laws pickup cs r d earth m free there =
      go (nearest_driver pickup cs r) (nearest_driver-IsChosen laws pickup cs r)
    where
      zero_km : haversine_km pickup d.location ≡ of_ℕ 0
      zero_km = rw there (haversine_km_here pickup earth)

      within : haversine_km pickup d.location ≼ of_ℕ r
      within = rw zero_km (laws.of_ℕ_mono 0 r (omega arith))

      go : (q : Result (CoreError F) (Driver F × F)) → IsChosen pickup cs r q → IsFoundAt (of_ℕ 0) q
      go (ok x) (_, all) =
          subst (λ m. x.1 ⊑ m) zero_km
            (All-at
              (λ c.
                c.status ≡ available
                → haversine_km pickup c.location ≼ of_ℕ r
                → x.1 ⊑ haversine_km pickup c.location)
              cs m all free within)
      go (err e) (_, all) =
          All-at (λ c. c.status ≡ available → haversine_km pickup c.location ≼ of_ℕ r → ⊥) cs m all
            free within
