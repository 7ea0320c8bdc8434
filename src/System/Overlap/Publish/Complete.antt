-- ===== src/System/Overlap/Publish/Complete.antt =====
-- Where nothing fails between a commit and its event, no event is missing.
use velocity_dispatch.Prelude.{
  ℕ, ◌+◌, ◌≡◌, refl, ◌∙◌, ap, inl, inr, List, [], ◌∷◌, count, count-append, arith, ok,
}
use velocity_dispatch.Float.{Float}
use velocity_dispatch.Core.Model.{Uuid}
use velocity_dispatch.Core.Events.{DispatchAssigned}
use velocity_dispatch.Core.Codec.{Codec}
use velocity_dispatch.Store.{Database, IsSchema, row_of}
use velocity_dispatch.Api.Db.{order_key}
use velocity_dispatch.Worker.Matching.{assignment_row}
use velocity_dispatch.Worker.Eventbridge.{
  PutEventsRequestEntry, DispatchEventPublisher, publish, entry_of,
}
use velocity_dispatch.Worker.Handler.{Published, publish_cases}
use velocity_dispatch.System.Writes.{of_order, IsBalanced, assignments_due}
use velocity_dispatch.System.Overlap as Overlap
use velocity_dispatch.System.Overlap.{
  Shared, Attempt, Statement, Phase, claims, selects, records, drops, inserts, upserts_driver,
  update, idle,
}
use velocity_dispatch.System.Handlers.{insert_effect, upsert_effect}
use velocity_dispatch.System.Overlap.Safe.{Overlaps-keeps}
use velocity_dispatch.System.Overlap.Publish.{
  Tasks, no_tasks, Work, states, commits, publishes, forgets, Works, not_begun, and_then_work,
}
use velocity_dispatch.System.Overlap.Publish.Honest.{for_order, count-mid}
use velocity_dispatch.System.Overlap.Publish.Once.{Works-Overlaps}
use velocity_dispatch.System.Announce.{EventDecoder, Decodes}
use velocity_dispatch.System.Announce.Bus.{about}

module _ {F : Type 0} ⦃f : Float F⦄ where
  -- Not a commit.
  abbrev IsOpen : {s t : Shared F} → Statement s t → Type 0
  IsOpen (claims i a _ _ _ e) = Unit
  IsOpen (selects i a cs _ _ _ e) = Unit
  IsOpen (records i a cs d x _ _ _ _ e) = Unit
  IsOpen (Overlap.commits i a cs d x _ e) = ⊥
  IsOpen (drops i e) = Unit
  IsOpen (inserts io stored o e) = Unit
  IsOpen (upserts_driver io now id name p status _ e) = Unit

  -- Only a commit stores an assignment.
  open-assignments :
      {s t : Shared F} (st : Statement s t) → IsOpen st → t.db.assignments ≡ s.db.assignments
  open-assignments (claims i a _ _ _ e) quiet = ap (λ (u : Shared F). u.db.assignments) e
  open-assignments (selects i a cs _ _ _ e) quiet = ap (λ (u : Shared F). u.db.assignments) e
  open-assignments (records i a cs d x _ _ _ _ e) quiet = ap (λ (u : Shared F). u.db.assignments) e
  open-assignments (Overlap.commits i a cs d x _ e) quiet = absurd quiet
  open-assignments (drops i e) quiet = ap (λ (u : Shared F). u.db.assignments) e
  open-assignments {s} (inserts io stored o e) quiet =
      ap (λ (u : Shared F). u.db.assignments) e ∙ elim (insert_effect io stored o s.db) [
        | inl h ↦ ap (λ (u : Database F). u.assignments) h
        | inr h ↦ ap (λ (u : Database F). u.assignments) h
      ]
  open-assignments {s} (upserts_driver io now id name p status _ e) quiet =
      ap (λ (u : Shared F). u.db.assignments) e
      ∙ elim (upsert_effect io now id name p status s.db) [
        | inl h ↦ ap (λ (u : Database F). u.assignments) h
        | inr h ↦ ap (λ (u : Database F). u.assignments) h
      ]

module _ {F : Type 0} ⦃f : Float F⦄ (codec : Codec F) (publisher : DispatchEventPublisher) where
  abbrev IsFaultlessWork : {s t : Tasks F} → Work codec publisher s t → Type 0
  IsFaultlessWork (states u st e) = IsOpen st
  IsFaultlessWork (commits i a cs d x _ e) = Unit
  IsFaultlessWork {s} (publishes io e before after _ h) =
      (publish codec io publisher e s.bus).0 ≡ ok tt
  IsFaultlessWork (forgets e before after _ h) = ⊥

  -- Each task hears of its commit, lives until it publishes, and its publish succeeds.
  abbrev pub IsFaultless : {s t : Tasks F} → Works codec publisher s t → Type 0
  IsFaultless not_begun = Unit
  IsFaultless (and_then_work r w) = IsFaultless r × IsFaultlessWork w

  module _ (decoder : EventDecoder F) (decodes : Decodes codec decoder) where
    -- The events of an order, on the bus and with the tasks.
    abbrev told : Uuid → Tasks F → ℕ
    told id s = count (about decoder id) s.bus + count (for_order id) s.pending

    abbrev stored : Uuid → Tasks F → ℕ
    stored id s = count (of_order id) s.shared.db.assignments

    Published-told :
        (id : Uuid) (e : DispatchAssigned F) (bus after : List PutEventsRequestEntry)
        → Published codec publisher e bus after
        → count (about decoder id) after
          ≡ count (about decoder id) bus + count (for_order id) (e ∷ [])
    Published-told id e bus after (detail, spelled, on_bus) =
        let (d, decoded, same_ids) = decodes.round_trip e detail spelled in
        ap (count (about decoder id)) on_bus
        ∙ count-append (about decoder id) bus (entry_of publisher detail ∷ [])
        ∙ rw (decoded, same_ids.order_id) refl

    Work-told :
        {s t : Tasks F} (id : Uuid) (w : Work codec publisher s t)
        → IsFaultlessWork w
        → told id t + stored id s ≡ told id s + stored id t
    Work-told {s} id (states u st e) quiet = rw (e, open-assignments st quiet) refl
    Work-told {s} id (commits i a cs d x _ e) well =
        let row = assignment_row a.io a.order_id d.id x in
        rw e (rw (count-append (of_order id) s.shared.db.assignments (row ∷ [])) (ground arith))
    Work-told {s} id (publishes io e before after pending h) well =
        rw h (elim (publish_cases codec io publisher e s.bus) [
          | inl (_, there) ↦
              let all =
                ap (count (for_order id)) pending ∙ count-mid (for_order id) before after e in
              let now = Published-told id e s.bus (publish codec io publisher e s.bus).1 there in
              ground (arith, all, now)
          | inr (x, wrong) ↦ cc
        ])
    Work-told id (forgets e before after _ h) well = absurd well

    Works-told :
        {s t : Tasks F} (id : Uuid) (r : Works codec publisher s t)
        → IsFaultless r
        → told id t + stored id s ≡ told id s + stored id t
    Works-told id not_begun well = refl
    Works-told id (and_then_work r w) (before, now) =
        omega (arith, Works-told id r before, Work-told id w now)

    -- From a database that keeps its constraints and is balanced, in which the order has no
    -- assignment, with an empty bus and no transaction open: however the transactions overlap, if
    -- each task hears of its commit, lives until it publishes, and its publish succeeds, then an
    -- assigned order has exactly one event on the bus or with a task that has yet to publish it,
    -- and any other order has none. The decoder is assumed to find the ids that the codec printed.
    pub Works-announced_all :
        {db : Database F} {t : Tasks F} (id : Uuid)
        → IsSchema db
        → IsBalanced db
        → count (of_order id) db.assignments ≡ 0
        → (r : Works codec publisher (no_tasks db) t) → IsFaultless r
        → count (about decoder id) t.bus + count (for_order id) t.pending
          ≡ assignments_due (row_of order_key id t.shared.db.orders)
    Works-announced_all id schema balanced fresh r well =
        let (_, balance) = Overlaps-keeps schema balanced (Works-Overlaps codec publisher r) in
        omega (arith, Works-told id r well, balance id, fresh)
