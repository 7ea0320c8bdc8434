-- ===== src/Tests/PublishTests.antt =====
-- The transaction that commits among the overlapping ones, and the publication of its event.
use velocity_dispatch.Prelude.{◌≡◌, ◌≤◌, ◌+◌, refl, [], ◌∷◌, count, done, All}
use velocity_dispatch.Prelude.Int.{pos}
use velocity_dispatch.Float.Sample.{Sample, num, sample_float}
use velocity_dispatch.Core.Codec.Sample.{sample_codec}
use velocity_dispatch.Worker.Eventbridge.{PutIo, publish}
use velocity_dispatch.System.Overlap.{Shared, Overlaps, start, later, at_rest, drops}
use velocity_dispatch.System.Overlap.Publish.{
  Tasks, no_tasks, Works, not_begun, and_then_work, states, commits, publishes,
}
use velocity_dispatch.System.Overlap.Publish.Once.{Works-announced_once}
use velocity_dispatch.System.Overlap.Publish.Honest.{for_order}
use velocity_dispatch.System.Overlap.Publish.Complete.{IsFaultless, Works-announced_all}
use velocity_dispatch.System.Announce.Bus.{IsBacked, about}
use velocity_dispatch.Tests.Data.{bus_publisher}
use velocity_dispatch.Tests.OverlapTests.{
  two_orders, two_orders-IsSchema, two_orders-IsBalanced, first, offers, ann_offer, overlapping,
  finished,
}
use velocity_dispatch.Tests.AnnounceTests.{
  sample_decoder, sample_decoder-Decodes, taken_event, taken_entry,
}

abbrev only_shared : Shared Sample → Tasks Sample
only_shared s = record { shared = s; pending = []; bus = [] }

abbrev statements_work :
    {s : Shared Sample}
    → Overlaps (at_rest two_orders) s
    → Works sample_codec bus_publisher (no_tasks two_orders) (only_shared s)
statements_work start = not_begun
statements_work (later {u = u} r st) = and_then_work (statements_work r) (states u st refl)

abbrev put_io : PutIo
put_io = record { put = done; failed_entry_count = 0 }

abbrev announced : Tasks Sample
announced = record { shared = finished; pending = []; bus = taken_entry ∷ [] }

-- The second transaction is rolled back, the first commits, and its event is published.
abbrev publishing : Works sample_codec bus_publisher (no_tasks two_orders) announced
unfolding publish overlapping
publishing =
    and_then_work
      (and_then_work (statements_work (later overlapping (drops 1 refl)))
        (commits 0 first offers ann_offer (num (pos 12_742)) refl refl))
      (publishes put_io taken_event [] [] refl refl)

Works-announced_once_example :
    All (IsBacked sample_decoder announced.shared.db) announced.bus
    × (count (about sample_decoder 7) announced.bus ≤ 1)
Works-announced_once_example =
    Works-announced_once sample_codec bus_publisher sample_decoder sample_decoder-Decodes 7
      two_orders-IsSchema two_orders-IsBalanced publishing

publishing-IsFaultless : IsFaultless sample_codec bus_publisher publishing
unfolding publish overlapping
publishing-IsFaultless = ((((((((tt, tt), tt), tt), tt), tt), tt), tt), refl)

Works-announced_all_example :
    count (about sample_decoder 7) announced.bus + count (for_order 7) announced.pending ≡ 1
unfolding publish overlapping
Works-announced_all_example =
    Works-announced_all sample_codec bus_publisher sample_decoder sample_decoder-Decodes 7
      two_orders-IsSchema two_orders-IsBalanced refl publishing publishing-IsFaultless
