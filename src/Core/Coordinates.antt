-- ===== src/Core/Coordinates.antt =====
-- `GeoPoint::new` accepts exactly the points whose coordinates are numbers in range.
use velocity_dispatch.Prelude.{◌≡◌, ◌↔◌, ◌⊎◌, ok, err, arith}
use velocity_dispatch.Float.{Float, ◌≼◌}
use velocity_dispatch.Core.Model.{GeoPoint, invalid_coordinate, new_point}

module _ {F : Type 0} ⦃f : Float F⦄ where
  open f use {neg, of_ℕ}

  -- ±90 degrees of latitude and ±180 degrees of longitude.
  pub record IsOnEarth (p : GeoPoint F) : Type 0 where
    pub south : neg (of_ℕ 90) ≼ p.lat
    pub north : p.lat ≼ of_ℕ 90
    pub west : neg (of_ℕ 180) ≼ p.lon
    pub east : p.lon ≼ of_ℕ 180

  pub new_point-IsOnEarth : (lat lon : F) (p : GeoPoint F) → new_point lat lon ≡ ok p → IsOnEarth p
  unfolding new_point
  new_point-IsOnEarth lat lon p e = ground arith

  -- A point is made exactly when both coordinates lie in range, and then with those coordinates;
  -- otherwise the error carries them.
  pub new_point_iff :
      (lat lon : F)
      → let p : GeoPoint F = record { lat = lat; lon = lon } in
        ((new_point lat lon ≡ ok p) ↔ IsOnEarth p)
        × ((new_point lat lon ≡ err (invalid_coordinate lat lon)) ↔ ¬ IsOnEarth p)
  unfolding new_point
  new_point_iff lat lon = ground arith

  pub new_point_cases :
      (lat lon : F)
      → let p : GeoPoint F = record { lat = lat; lon = lon } in
        ((new_point lat lon ≡ ok p) × IsOnEarth p)
        ⊎ ((new_point lat lon ≡ err (invalid_coordinate lat lon)) × ¬ IsOnEarth p)
  unfolding new_point
  new_point_cases lat lon = ground arith
