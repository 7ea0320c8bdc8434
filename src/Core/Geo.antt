-- ===== src/Core/Geo.antt =====
-- crates/dispatch-core/src/geo.rs: the distance and the choice of the nearest driver.
pub mod Nearest
pub mod Haversine
pub mod Here
pub mod Widen
pub mod Reorder
use Prim.Native.Nat.{Ordering}
use velocity_dispatch.Prelude.{
  ℕ, Bool, true, false, List, [], ◌∷◌, map, Option, none, some, Result, ok, err, filter,
  if◌then◌else◌,
}
use velocity_dispatch.Float.{Float, not_gt}
use velocity_dispatch.Core.Model.{GeoPoint, Driver, CoreError, no_driver_in_range, is_available}

-- `Option::ok_or`
abbrev pub ok_or : {E A : Type 0} → Option A → E → Result E A
ok_or none e = err e
ok_or (some a) e = ok a

module _ {F : Type 0} ⦃f : Float F⦄ where
  open f use {le, total_cmp, add, sub, mul, div, of_ℕ, to_radians, sin, cos, asin, sqrt, square}

  abbrev pub earth_radius_km : F
  earth_radius_km = of_ℕ 6371

  unfoldable pub haversine_km : GeoPoint F → GeoPoint F → F
  haversine_km a b =
      let lat1 = to_radians a.lat in
      let lon1 = to_radians a.lon in
      let lat2 = to_radians b.lat in
      let lon2 = to_radians b.lon in
      let dlat = sub lat2 lat1 in
      let dlon = sub lon2 lon1 in
      let h =
        add (square (sin (div dlat (of_ℕ 2))))
          (mul (mul (cos lat1) (cos lat2)) (square (sin (div dlon (of_ℕ 2))))) in
      let c = mul (of_ℕ 2) (asin (sqrt h)) in mul earth_radius_km c

  -- `Iterator::min_by` over pairs, by the distance: it keeps the first of equal minima.
  abbrev pub closer : Driver F × F → Driver F × F → Driver F × F
  closer x y = if not_gt (total_cmp x.1 y.1) then x else y

  abbrev pub min_from : Driver F × F → List (Driver F × F) → Driver F × F
  min_from best [] = best
  min_from best (x ∷ xs) = min_from (closer best x) xs

  abbrev pub min_by : List (Driver F × F) → Option (Driver F × F)
  min_by [] = none
  min_by (x ∷ xs) = some (min_from x xs)

  abbrev pub with_distance : GeoPoint F → Driver F → Driver F × F
  with_distance pickup d = (d, haversine_km pickup d.location)

  abbrev pub in_radius : ℕ → Driver F × F → Bool
  in_radius radius_km x = le x.1 (of_ℕ radius_km)

  abbrev pub reachable : GeoPoint F → List (Driver F) → ℕ → List (Driver F × F)
  reachable pickup candidates radius_km =
      filter (in_radius radius_km)
        (map (with_distance pickup) (filter (λ d. is_available d.status) candidates))

  unfoldable pub nearest_driver :
      GeoPoint F → List (Driver F) → ℕ → Result (CoreError F) (Driver F × F)
  nearest_driver pickup candidates radius_km =
      ok_or (min_by (reachable pickup candidates radius_km)) (no_driver_in_range radius_km)
