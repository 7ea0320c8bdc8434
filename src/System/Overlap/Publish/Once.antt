-- ===== src/System/Overlap/Publish/Once.antt =====
-- However tasks overlap, an order is announced at most once, and only when it is assigned.
use mathlib.Core.Path.{subst}
use velocity_dispatch.Prelude.{◌≤◌, refl, sym, count, arith, All}
use velocity_dispatch.Float.{Float}
use velocity_dispatch.Core.Model.{Uuid}
use velocity_dispatch.Core.Codec.{Codec}
use velocity_dispatch.Store.{Database, IsSchema, row_of}
use velocity_dispatch.Api.Db.{order_key}
use velocity_dispatch.Worker.Eventbridge.{DispatchEventPublisher}
use velocity_dispatch.System.Writes.{IsBalanced, due_bounds}
use velocity_dispatch.System.Overlap as Overlap
use velocity_dispatch.System.Overlap.{
  Shared, Phase, recorded, Attempt, Statement, Overlaps, start, later, at_rest, update, idle,
  claims, selects, records, drops, inserts, upserts_driver,
}
use velocity_dispatch.System.Overlap.Serial.{Overlaps-IsApart}
use velocity_dispatch.System.Overlap.Safe.{Overlaps-keeps}
use velocity_dispatch.System.Overlap.Publish.{
  Tasks, no_tasks, states, commits, publishes, forgets, Works, not_begun, and_then_work,
}
use velocity_dispatch.System.Overlap.Publish.Honest.{IsHonest, Work-IsHonest}
use velocity_dispatch.System.Announce.{EventDecoder, Decodes}
use velocity_dispatch.System.Announce.Bus.{about, IsBacked}

module _ {F : Type 0} ⦃f : Float F⦄ (codec : Codec F) (publisher : DispatchEventPublisher) where
  -- The statements of the tasks, without what they publish.
  pub Works-Overlaps :
      {db : Database F} {t : Tasks F}
      → Works codec publisher (no_tasks db) t
      → Overlaps (at_rest db) t.shared
  Works-Overlaps not_begun = start
  Works-Overlaps {db} (and_then_work r (states u st e)) =
      subst (λ (v : Tasks F). Overlaps (at_rest db) v.shared) (sym e) (later (Works-Overlaps r) st)
  Works-Overlaps {db} (and_then_work r (commits i a cs d x recorded_at e)) =
      subst (λ (v : Tasks F). Overlaps (at_rest db) v.shared) (sym e)
        (later (Works-Overlaps r) (Overlap.commits i a cs d x recorded_at refl))
  Works-Overlaps {db} (and_then_work r (publishes io e before after pending h)) =
      subst (λ (v : Tasks F). Overlaps (at_rest db) v.shared) (sym h) (Works-Overlaps r)
  Works-Overlaps {db} (and_then_work r (forgets e before after pending h)) =
      subst (λ (v : Tasks F). Overlaps (at_rest db) v.shared) (sym h) (Works-Overlaps r)

module _ {F : Type 0} ⦃f : Float F⦄ (codec : Codec F) (publisher : DispatchEventPublisher)
    (decoder : EventDecoder F) (decodes : Decodes codec decoder) where
  Works-IsHonest :
      {db : Database F} {t : Tasks F}
      → IsSchema db
      → Works codec publisher (no_tasks db) t
      → IsHonest codec publisher decoder decodes t
  Works-IsHonest schema not_begun = record { backed = tt; stored = tt; counted = λ id. omega arith }
  Works-IsHonest schema (and_then_work r w) =
      Work-IsHonest codec publisher decoder decodes w
        (Overlaps-IsApart schema (Works-Overlaps codec publisher r)) (Works-IsHonest schema r)

  -- From a database that keeps its constraints and is balanced, with an empty bus and no
  -- transaction open: however the transactions overlap, and in whatever order the tasks publish or
  -- die after their commits, the rule of the bus matches each event on it, each event decodes to
  -- the ids of a stored assignment, and there is at most one event for an order. The decoder is
  -- assumed to find the ids that the codec printed.
  pub Works-announced_once :
      {db : Database F} {t : Tasks F} (id : Uuid)
      → IsSchema db
      → IsBalanced db
      → Works codec publisher (no_tasks db) t
      → All (IsBacked decoder t.shared.db) t.bus × (count (about decoder id) t.bus ≤ 1)
  Works-announced_once {t = t} id schema balanced r =
      let honest = Works-IsHonest schema r in
      let (_, balance) = Overlaps-keeps schema balanced (Works-Overlaps codec publisher r) in
      (
        honest.backed,
        omega (
          arith,
          honest.counted id,
          balance id,
          due_bounds (row_of order_key id t.shared.db.orders),
        ),
      )
