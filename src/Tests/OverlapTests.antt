-- ===== src/Tests/OverlapTests.antt =====
-- Two transactions of the worker that overlap.
use velocity_dispatch.Prelude.{◌≡◌, arith, refl, [], ◌∷◌, true, false, List}
use velocity_dispatch.Prelude.Int.{pos}
use velocity_dispatch.Float.Sample.{Sample, num, sample_float}
use velocity_dispatch.Core.Geo.{nearest_driver, haversine_km}
use velocity_dispatch.Core.Model.{Uuid, Driver, available}
use velocity_dispatch.Store.{Database, IsSchema}
use velocity_dispatch.Worker.Matching.{complete, candidates, record_assignment}
use velocity_dispatch.Worker.Db.{
  claim_order_for_assignment, available_drivers_for_update, insert_assignment, set_driver_busy,
}
use velocity_dispatch.System.Writes.{IsBalanced}
use velocity_dispatch.System.Overlap.{
  Attempt, Phase, Shared, holds_driver, holds_order, holds_key, update, idle, claimed, selected,
  recorded, move, claims, selects, records, commits, drops, Overlaps, start, later, at_rest,
}
use velocity_dispatch.System.Overlap.Apart.{Every-update}
use velocity_dispatch.System.Overlap.Serial.{assigns, Serial, Overlaps-Serial}
use velocity_dispatch.System.Overlap.Safe.{Overlaps-keeps}
use velocity_dispatch.Tests.Data.{db, order_row, assign_io, pickup, radius, point}

abbrev pub two_orders : Database Sample
two_orders = record db { orders = order_row ∷ record order_row { id = 8 } ∷ [] }

pub two_orders-IsSchema : IsSchema two_orders
two_orders-IsSchema = record {
  order_keys = (refl, (refl, tt));
  driver_keys = (refl, (refl, (refl, tt)));
  assignment_keys = tt;
  order_checks = (refl, (refl, tt));
  driver_checks = (refl, (refl, (refl, tt)));
  references = tt;
}

abbrev pub first : Attempt Sample
first = record { io = assign_io; order_id = 7; pickup = pickup; radius_km = radius }

-- It finds every driver locked.
abbrev second : Attempt Sample
second = record {
  io = record assign_io { new_id = 10; locked = λ _. true };
  order_id = 8;
  pickup = pickup;
  radius_km = radius;
}

abbrev pub offers : List (Driver Sample)
offers = candidates assign_io two_orders

abbrev both_claimed : Shared Sample
both_claimed = move (move (at_rest two_orders) 0 (claimed first)) 1 (claimed second)

abbrev both_selected : Shared Sample
both_selected = move (move both_claimed 0 (selected first offers)) 1 (selected second [])

abbrev pub ann_offer : Driver Sample
ann_offer = record {
  id = 1;
  name = "ann";
  location = point 11 10;
  status = available;
  updated_at = pos 6;
}

abbrev pub one_recorded : Shared Sample
one_recorded = move both_selected 0 (recorded first offers ann_offer (num (pos 12_742)))

abbrev OthersFree : Phase Sample → Type 0
OthersFree p = holds_order p 8 ≡ false

abbrev Skipped : Phase Sample → Type 0
Skipped p = (k : Uuid) → holds_driver p k ≡ true → false ≡ true

abbrev Unused : Phase Sample → Type 0
Unused p = holds_key p 9 ≡ false

unfoldable pub overlapping : Overlaps (at_rest two_orders) one_recorded
unfolding claim_order_for_assignment available_drivers_for_update nearest_driver haversine_km
    insert_assignment set_driver_busy record_assignment
overlapping =
    later
      (later
        (later
          (later (later start (claims 0 first refl (λ j. refl) refl refl)) (
            claims 1 second refl (Every-update OthersFree _ 0 (claimed first) (λ j. refl) refl) refl
              refl))
          (selects 0 first offers refl
            (Every-update Skipped _ 1 (claimed second)
              (Every-update Skipped _ 0 (claimed first) (λ j k h. h) (λ k h. h)) (λ k h. h))
            refl refl))
        (selects 1 second [] refl (λ j k h. refl) refl refl))
      (records 0 first offers ann_offer (num (pos 12_742)) refl refl
        (Every-update Unused _ 1 (selected second [])
          (Every-update Unused _ 0 (selected first offers)
            (Every-update Unused _ 1 (claimed second)
              (Every-update Unused _ 0 (claimed first) (λ j. refl) refl) refl)
            refl)
          refl)
        refl refl)

abbrev pub finished : Shared Sample
finished = record {
  db = complete assign_io 7 1 (num (pos 12_742)) two_orders;
  phase = update (move one_recorded 1 idle).phase 0 idle;
}

-- The second transaction is rolled back, the first commits.
pub ended : Overlaps (at_rest two_orders) finished
ended =
    later (later overlapping (drops 1 refl))
      (commits 0 first offers ann_offer (num (pos 12_742)) refl refl)

Overlaps-Serial_example :
    Serial two_orders (assigns first ann_offer (num (pos 12_742)) ∷ []) finished.db
unfolding ended overlapping
Overlaps-Serial_example = Overlaps-Serial two_orders-IsSchema ended

pub two_orders-IsBalanced : IsBalanced two_orders
two_orders-IsBalanced id = ground arith

Overlaps-keeps_example : IsSchema finished.db × IsBalanced finished.db
Overlaps-keeps_example = Overlaps-keeps two_orders-IsSchema two_orders-IsBalanced ended
