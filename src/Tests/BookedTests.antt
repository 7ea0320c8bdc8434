-- ===== src/Tests/BookedTests.antt =====
-- The orders of the driver who is nearest.
use velocity_dispatch.Prelude.{◌+◌, ◌≤◌, count}
use velocity_dispatch.Float.Sample.{sample_float}
use velocity_dispatch.Core.Codec.Sample.{sample_codec}
use velocity_dispatch.System.Booked.{of_driver, free_of}
use velocity_dispatch.System.Booked.Histories.{offers, Reach-booked}
use velocity_dispatch.System.Booked.Statements.{upserts_free, Overlaps-booked}
use velocity_dispatch.Tests.Data.{bus_publisher, queue_publisher}
use velocity_dispatch.Tests.SystemTests.{first_state, first_state-IsSound}
use velocity_dispatch.Tests.AnnounceTests.{wide, after_delivery, assigning}
use velocity_dispatch.Tests.OverlapTests.{two_orders, two_orders-IsSchema, finished, ended}

Reach-booked_example :
    count (of_driver 1) after_delivery.db.assignments
    ≤ count (of_driver 1) first_state.db.assignments
      + count (free_of 1) first_state.db.drivers
      + offers sample_codec queue_publisher bus_publisher wide 1 assigning
Reach-booked_example =
    Reach-booked sample_codec queue_publisher bus_publisher wide 1 first_state-IsSound.schema
      assigning

Overlaps-booked_example :
    count (of_driver 1) finished.db.assignments
    ≤ count (of_driver 1) two_orders.assignments
      + count (free_of 1) two_orders.drivers
      + upserts_free 1 ended
Overlaps-booked_example = Overlaps-booked 1 two_orders-IsSchema ended
