-- ===== src/Tests/CoreTests.antt =====
-- Coordinates, distances and the nearest driver.
use velocity_dispatch.Prelude.{◌≡◌, refl, ◌↔◌, List, ok, err, arith}
use velocity_dispatch.Prelude.Int.{pos}
use velocity_dispatch.Float.Sample.{Sample, num, sample_float, Sample-IsOrdered}
use velocity_dispatch.Core.Model.{Driver, available, new_point, invalid_coordinate}
use velocity_dispatch.Core.Coordinates.{IsOnEarth, new_point_iff}
use velocity_dispatch.Core.Geo.{haversine_km, nearest_driver}
use velocity_dispatch.Core.Geo.Nearest.{IsChosen, nearest_driver-IsChosen}
use velocity_dispatch.Core.Geo.Widen.{nearest_driver_widen}
use velocity_dispatch.Tests.Data.{point, pickup, radius, assign_io, db}
use velocity_dispatch.Worker.Matching.{candidates}

abbrev offered : List (Driver Sample)
offered = candidates assign_io db

abbrev nearest : Driver Sample × Sample
nearest = (
  record { id = 1; name = "ann"; location = point 11 10; status = available; updated_at = pos 6 },
  num (pos 12_742),
)

new_point_iff_example :
    let p = point 91 0 in
    ((new_point p.lat p.lon ≡ ok p) ↔ IsOnEarth p)
    × ((new_point p.lat p.lon ≡ err (invalid_coordinate p.lat p.lon)) ↔ ¬ IsOnEarth p)
new_point_iff_example = new_point_iff (num (pos 91)) (num (pos 0))

nearest_driver-IsChosen_example :
    IsChosen pickup offered radius (nearest_driver pickup offered radius)
nearest_driver-IsChosen_example = nearest_driver-IsChosen Sample-IsOrdered pickup offered radius

nearest_driver_test : nearest_driver pickup offered radius ≡ ok nearest
unfolding nearest_driver haversine_km
nearest_driver_test = refl

nearest_driver_widen_example : nearest_driver pickup offered radius ≡ ok nearest
unfolding nearest_driver haversine_km
nearest_driver_widen_example =
    nearest_driver_widen Sample-IsOrdered 15_000 radius (omega arith) pickup offered nearest refl
