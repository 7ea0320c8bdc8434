-- ===== src/Core/Geo/Haversine.antt =====
-- The distance does not depend on the direction of travel.
use velocity_dispatch.Prelude.{◌≡◌, inl, inr}
use velocity_dispatch.Float.{Float, IsSigned}
use velocity_dispatch.Core.Model.{GeoPoint}
use velocity_dispatch.Core.Geo.{haversine_km}

module _ {F : Type 0} ⦃f : Float F⦄ (signs : IsSigned F) where
  open f use {sub, mul, div, of_ℕ, sin, square}
  open signs use {sub_swap, div_neg, sin_odd, square_even, mul_comm}

  -- A squared half-angle sine forgets the sign of the difference.
  square_sin_swap :
      (x y : F) → square (sin (div (sub x y) (of_ℕ 2))) ≡ square (sin (div (sub y x) (of_ℕ 2)))
  square_sin_swap x y = elim (sub_swap x y) [
    | inl same ↦ rw same
    | inr opposite ↦ rw (opposite, div_neg, sin_odd, square_even)
  ]

  -- For floats whose sine is odd and whose differences change sign with their order, the distance
  -- from a to b is the distance from b to a, to the last bit.
  pub haversine_km_comm : (a b : GeoPoint F) → haversine_km a b ≡ haversine_km b a
  unfolding haversine_km
  haversine_km_comm a b = cc (
    square_sin_swap (f.to_radians b.lat) (f.to_radians a.lat),
    square_sin_swap (f.to_radians b.lon) (f.to_radians a.lon),
    mul_comm (f.cos (f.to_radians a.lat)) (f.cos (f.to_radians b.lat)),
  )
