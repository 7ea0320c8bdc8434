-- ===== src/Tests/ExclusiveTests.antt =====
-- Two transactions that record assignments for different drivers side by side.
use velocity_dispatch.Prelude.{ℕ, ◌≡◌, ◌≢◌, ◌≤◌, arith, refl, true, false, List, count, ◌==◌}
use velocity_dispatch.Prelude.Int.{pos}
use velocity_dispatch.Float.Sample.{Sample, num, sample_float}
use velocity_dispatch.Core.Geo.{nearest_driver, haversine_km}
use velocity_dispatch.Core.Model.{Uuid, Driver, available}
use velocity_dispatch.Worker.Matching.{Pending, candidates, record_assignment}
use velocity_dispatch.Worker.Db.{
  claim_order_for_assignment, available_drivers_for_update, insert_assignment, set_driver_busy,
}
use velocity_dispatch.System.Booked.{free_of}
use velocity_dispatch.System.Overlap.{
  Attempt, Phase, Shared, holds_driver, holds_order, holds_key, claimed, selected, recorded, move,
  claims, selects, records, Overlaps, start, later, at_rest,
}
use velocity_dispatch.System.Overlap.Apart.{Every-update}
use velocity_dispatch.System.Overlap.Safe.{Overlaps-exclusive}
use velocity_dispatch.Tests.Data.{assign_io, pickup, radius, point}
use velocity_dispatch.Tests.OverlapTests.{two_orders, two_orders-IsSchema, ann_offer}

-- It sees ben as locked, and takes ann.
abbrev for_ann : Attempt Sample
for_ann = record {
  io = record assign_io { locked = λ k. k == 2 };
  order_id = 7;
  pickup = pickup;
  radius_km = radius;
}

-- It finds ann locked, and takes ben.
abbrev for_ben : Attempt Sample
for_ben = record {
  io = record assign_io { new_id = 10; locked = λ k. k == 1 };
  order_id = 8;
  pickup = pickup;
  radius_km = radius;
}

abbrev only_ann : List (Driver Sample)
only_ann = candidates for_ann.io two_orders

abbrev only_ben : List (Driver Sample)
only_ben = candidates for_ben.io two_orders

abbrev ben_offer : Driver Sample
ben_offer = record {
  id = 2;
  name = "ben";
  location = point 10 12;
  status = available;
  updated_at = pos 6;
}

abbrev claimed_both : Shared Sample
claimed_both = move (move (at_rest two_orders) 0 (claimed for_ann)) 1 (claimed for_ben)

abbrev ann_recorded : Shared Sample
ann_recorded =
    move (move claimed_both 0 (selected for_ann only_ann)) 0
      (recorded for_ann only_ann ann_offer (num (pos 12_742)))

abbrev both_recorded : Shared Sample
both_recorded =
    move (move ann_recorded 1 (selected for_ben only_ben)) 1
      (recorded for_ben only_ben ben_offer (num (pos 50_968)))

abbrev NotEight : Phase Sample → Type 0
NotEight p = holds_order p 8 ≡ false

abbrev Unlocked : Phase Sample → Type 0
Unlocked p = (k : Uuid) → holds_driver p k ≡ true → (k == 2) ≡ true

abbrev OnlyAnn : Phase Sample → Type 0
OnlyAnn p = (k : Uuid) → holds_driver p k ≡ true → (k == 1) ≡ true

abbrev KeyFree : ℕ → Phase Sample → Type 0
KeyFree n p = holds_key p n ≡ false

side_by_side : Overlaps (at_rest two_orders) both_recorded
unfolding claim_order_for_assignment available_drivers_for_update nearest_driver haversine_km
    insert_assignment set_driver_busy record_assignment
side_by_side =
    later
      (later
        (later
          (later
            (later (later start (claims 0 for_ann refl (λ j. refl) refl refl)) (
              claims 1 for_ben refl (Every-update NotEight _ 0 (claimed for_ann) (λ j. refl) refl)
                refl refl))
            (selects 0 for_ann only_ann refl
              (Every-update Unlocked _ 1 (claimed for_ben)
                (Every-update Unlocked _ 0 (claimed for_ann) (λ j k h. cc) (λ k h. cc)) (λ k h. cc))
              refl refl))
          (records 0 for_ann only_ann ann_offer (num (pos 12_742)) refl refl
            (Every-update (KeyFree 9) _ 0 (selected for_ann only_ann)
              (Every-update (KeyFree 9) _ 1 (claimed for_ben)
                (Every-update (KeyFree 9) _ 0 (claimed for_ann) (λ j. refl) refl) refl)
              refl)
            refl refl))
        (selects 1 for_ben only_ben refl
          (Every-update OnlyAnn _ 0 (recorded for_ann only_ann ann_offer (num (pos 12_742)))
            (Every-update OnlyAnn _ 0 (selected for_ann only_ann)
              (Every-update OnlyAnn _ 1 (claimed for_ben)
                (Every-update OnlyAnn _ 0 (claimed for_ann) (λ j k h. cc) (λ k h. cc)) (λ k h. cc))
              (λ k h. ground (arith, h)))
            (λ k h. ground (arith, h)))
          refl refl))
      (records 1 for_ben only_ben ben_offer (num (pos 50_968)) refl refl
        (Every-update (KeyFree 10) _ 1 (selected for_ben only_ben)
          (Every-update (KeyFree 10) _ 0 (recorded for_ann only_ann ann_offer (num (pos 12_742)))
            (Every-update (KeyFree 10) _ 0 (selected for_ann only_ann)
              (Every-update (KeyFree 10) _ 1 (claimed for_ben)
                (Every-update (KeyFree 10) _ 0 (claimed for_ann) (λ j. refl) refl) refl)
              refl)
            refl)
          refl)
        refl refl)

Overlaps-exclusive_example :
    (ann_offer.id ≢ ben_offer.id)
    × (for_ann.order_id ≢ for_ben.order_id)
    × (for_ann.io.new_id ≢ for_ben.io.new_id)
    × Pending 7 two_orders
    × (1 ≤ count (free_of 1) two_orders.drivers)
Overlaps-exclusive_example =
    Overlaps-exclusive 0 1 for_ann for_ben only_ann only_ben ann_offer ben_offer (num (pos 12_742))
      (num (pos 50_968)) two_orders-IsSchema side_by_side (omega arith) refl refl
