-- ===== src/System/Overlap/Publish/Honest.antt =====
-- What the tasks hold and what the bus holds, against the stored assignments.
use mathlib.Core.Path.{subst}
use velocity_dispatch.Prelude.{
  ℕ, ◌+◌, ◌≡◌, ◌≤◌, refl, sym, ◌∙◌, ap, inl, inr, List, [], ◌∷◌, ◌++◌, Bool, count, count-append,
  arith, ◌==◌, All, All-mono, All-append, All-without, All-at, mem_mid, Memᴰ,
}
use velocity_dispatch.Float.{Float}
use velocity_dispatch.Core.Model.{Uuid, Driver}
use velocity_dispatch.Core.Events.{DispatchAssigned}
use velocity_dispatch.Core.Codec.{Codec}
use velocity_dispatch.Worker.Matching.{complete, assignment_row}
use velocity_dispatch.Worker.Eventbridge.{
  PutEventsRequestEntry, DispatchEventPublisher, publish, entry_of,
}
use velocity_dispatch.Worker.Handler.{Published, publish_bus}
use velocity_dispatch.System.Writes.{Write, of_order}
use velocity_dispatch.System.Overlap.{Shared, Attempt, update, idle}
use velocity_dispatch.System.Overlap.Fits.{Fits}
use velocity_dispatch.System.Overlap.Moves.{IsApart}
use velocity_dispatch.System.Overlap.Ends.{commits-Write, Statement-Write}
use velocity_dispatch.System.Overlap.Publish.{
  Tasks, committed, Work, states, commits, publishes, forgets,
}
use velocity_dispatch.System.Announce.{EventDecoder, Decodes}
use velocity_dispatch.System.Announce.Stored.{IsStored, Write-IsStored, Write-count}
use velocity_dispatch.System.Announce.Bus.{about, IsBacked, IsBacked-Write}

module _ {F : Type 0} where
  -- The event is about that order.
  abbrev pub for_order : Uuid → DispatchAssigned F → Bool
  for_order id e = e.order_id == id

  pub count-mid :
      (p : DispatchAssigned F → Bool) (xs ys : List (DispatchAssigned F)) (e : DispatchAssigned F)
      → count p (xs ++ e ∷ ys) ≡ count p (e ∷ xs ++ ys)
  count-mid p [] ys e = refl
  count-mid p (x ∷ xs) ys e = ground (arith, count-mid p xs ys e)

module _ {F : Type 0} ⦃f : Float F⦄ (codec : Codec F) (publisher : DispatchEventPublisher)
    (decoder : EventDecoder F) (decodes : Decodes codec decoder) where
  pub record IsHonest (s : Tasks F) : Type 0 where
    pub backed : All (IsBacked decoder s.shared.db) s.bus
    pub stored : All (IsStored s.shared.db) s.pending
    pub counted :
        (id : Uuid)
        → count (about decoder id) s.bus + count (for_order id) s.pending
          ≤ count (of_order id) s.shared.db.assignments

  -- A write of the database, by any transaction.
  written-IsHonest :
      (s : Tasks F) (u : Shared F)
      → Write s.shared.db u.db
      → IsHonest s
      → IsHonest (record s { shared = u })
  written-IsHonest s u w h = record {
    backed = All-mono _ _ s.bus (IsBacked-Write decoder w) h.backed;
    stored = All-mono _ _ s.pending (λ e k. Write-IsStored w k) h.stored;
    counted = λ id. omega (arith, h.counted id, Write-count id w);
  }

  -- The new event tells of the row that the commit stores.
  committed-IsHonest :
      (s : Tasks F) (i : ℕ) (a : Attempt F) (cs : List (Driver F)) (d : Driver F) (x : F)
      → Write s.shared.db (complete a.io a.order_id d.id x s.shared.db)
      → IsHonest s
      → IsHonest (record s {
        shared = record {
          db = complete a.io a.order_id d.id x s.shared.db;
          phase = update s.shared.phase i idle;
        };
        pending = committed a d x ∷ s.pending;
      })
  committed-IsHonest s i a cs d x w h =
      let row = assignment_row a.io a.order_id d.id x in
      record {
        backed = All-mono _ _ s.bus (IsBacked-Write decoder w) h.backed;
        stored = (
          record {
            row = row;
            there = mem_mid row s.shared.db.assignments [];
            id = refl;
            order_id = refl;
            driver_id = refl;
          },
          All-mono _ _ s.pending (λ e k. Write-IsStored w k) h.stored,
        );
        counted = λ id.
            rw (count-append (of_order id) s.shared.db.assignments (row ∷ []))
              (ground (arith, h.counted id));
      }

  -- An event that leaves the memory of its task.
  forgotten-IsHonest :
      (s : Tasks F) (e : DispatchAssigned F) (before after : List (DispatchAssigned F))
      → s.pending ≡ before ++ e ∷ after
      → IsHonest s
      → IsHonest (record s { pending = before ++ after })
  forgotten-IsHonest s e before after pending h = record {
    backed = h.backed;
    stored =
        All-without (IsStored s.shared.db) e before after
          (subst (All (IsStored s.shared.db)) pending h.stored);
    counted = λ id.
        let all = ap (count (for_order id)) pending ∙ count-mid (for_order id) before after e in
        ground (arith, h.counted id, all);
  }

  told-IsHonest :
      (s : Tasks F) (e : DispatchAssigned F) (before after : List (DispatchAssigned F))
      (bus : List PutEventsRequestEntry)
      → s.pending ≡ before ++ e ∷ after
      → Published codec publisher e s.bus bus
      → IsHonest s
      → IsHonest (record s { pending = before ++ after; bus = bus })
  told-IsHonest s e before after bus pending (detail, spelled, on_bus) h =
      let (d, decoded, same_ids) = decodes.round_trip e detail spelled in
      let here =
        All-at (IsStored s.shared.db) s.pending
          (subst (Memᴰ e) (sym pending) (mem_mid e before after)) h.stored in
      let left = forgotten-IsHonest s e before after pending h in
      record {
        backed = subst (All (IsBacked decoder s.shared.db)) (sym on_bus) (
            All-append _ s.bus (entry_of publisher detail ∷ []) h.backed (
              (
                refl,
                d,
                decoded,
                record {
                  row = here.row;
                  there = here.there;
                  id = here.id ∙ sym same_ids.assignment_id;
                  order_id = here.order_id ∙ sym same_ids.order_id;
                  driver_id = here.driver_id ∙ sym same_ids.driver_id;
                },
              ),
              tt,
            ));
        stored = left.stored;
        counted = λ id.
            let all = ap (count (for_order id)) pending ∙ count-mid (for_order id) before after e in
            let now =
              ap (count (about decoder id)) on_bus
              ∙ count-append (about decoder id) s.bus (entry_of publisher detail ∷ []) in
            let this : about decoder id (entry_of publisher detail) ≡ for_order id e =
              rw (decoded, same_ids.order_id) refl in
            ground (arith, h.counted id, all, now, this);
      }

  pub Work-IsHonest :
      {s t : Tasks F} → Work codec publisher s t → IsApart s.shared → IsHonest s → IsHonest t
  Work-IsHonest {s} (states u st e) inv h =
      subst IsHonest (sym e) (written-IsHonest s u (Statement-Write st inv) h)
  Work-IsHonest {s} (commits i a cs d x recorded_at e) inv h = subst IsHonest (sym e) (
      committed-IsHonest s i a cs d x
        (commits-Write a cs d x s.shared.db (subst (Fits s.shared.db) recorded_at (inv.fits i))) h)
  Work-IsHonest {s} (publishes io e before after pending h) inv honest =
      let bus = (publish codec io publisher e s.bus).1 in
      subst IsHonest (sym h) (elim (publish_bus codec io publisher e s.bus) [
        | inl quiet ↦
            let left = forgotten-IsHonest s e before after pending honest in
            rw quiet (record { backed = left.backed; stored = left.stored; counted = left.counted })
        | inr told ↦ told-IsHonest s e before after bus pending told honest
      ])
  Work-IsHonest {s} (forgets e before after pending h) inv honest =
      subst IsHonest (sym h) (forgotten-IsHonest s e before after pending honest)
