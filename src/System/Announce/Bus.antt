-- ===== src/System/Announce/Bus.antt =====
-- What stands on the bus, in every history of the services.
use mathlib.Core.Path.{subst}
use velocity_dispatch.Prelude.{
  ◌≡◌, ◌≤◌, refl, sym, ◌∙◌, ap, inl, inr, [], ◌∷◌, Bool, true, false, Option, none, some, count,
  count-append_one, Memᴰ, arith, ◌==◌, All, All-mono, All-append, mem_mid,
}
use velocity_dispatch.Float.{Float}
use velocity_dispatch.Core.Model.{Uuid}
use velocity_dispatch.Core.Events.{DispatchAssigned}
use velocity_dispatch.Core.Codec.{Codec, IsFaithful}
use velocity_dispatch.Store.{Database, IsSchema}
use velocity_dispatch.Api.Sqs.{OrderEventPublisher}
use velocity_dispatch.Worker.Matching.{assignment_row}
use velocity_dispatch.Worker.Eventbridge.{PutEventsRequestEntry, DispatchEventPublisher, entry_of}
use velocity_dispatch.Worker.Handler.{
  HandlerConfig, HandleIo, World, Message, Announced, handle_message, handle_message_bus,
}
use velocity_dispatch.System.Writes.{Write, of_order}
use velocity_dispatch.System.Run.{
  State, Step, creates, registers, reports, delivers, Reach, here, next, world_of, delivery,
}
use velocity_dispatch.System.Sound.{IsSound, Step-Write, Reach-IsSound, Reach-assigned_once}
use velocity_dispatch.System.Announce.{EventDecoder, Decodes, matches_rule}
use velocity_dispatch.System.Announce.Stored.{IsStored, Write-IsStored, Write-count}

module _ {F : Type 0} (decoder : EventDecoder F) where
  abbrev tells_of : Uuid → Option (DispatchAssigned F) → Bool
  tells_of id none = false
  tells_of id (some d) = d.order_id == id

  -- The event is about that order.
  abbrev pub about : Uuid → PutEventsRequestEntry → Bool
  about id entry = tells_of id (decoder.assigned_from_str entry.detail)

  -- The rule matches the event, and it tells of a stored assignment.
  abbrev pub IsBacked : Database F → PutEventsRequestEntry → Type 0
  IsBacked db entry =
      (matches_rule entry ≡ true)
      × (d : DispatchAssigned F) × (decoder.assigned_from_str entry.detail ≡ some d)
      × IsStored db d

  pub record IsAnnounced (s : State F) : Type 0 where
    pub backed : All (IsBacked s.db) s.bus
    pub counted : (id : Uuid) → count (about id) s.bus ≤ count (of_order id) s.db.assignments

  pub IsBacked-Write :
      {db t : Database F} → Write db t → (p : PutEventsRequestEntry) → IsBacked db p → IsBacked t p
  IsBacked-Write w p (matches, d, decodes, stored) = (matches, d, decodes, Write-IsStored w stored)

  -- A step that leaves the bus.
  quiet-IsAnnounced :
      {s t : State F} → Write s.db t.db → t.bus ≡ s.bus → IsAnnounced s → IsAnnounced t
  quiet-IsAnnounced {s} {t} w e i = record {
    backed = subst (All (IsBacked t.db)) (sym e) (All-mono _ _ s.bus (IsBacked-Write w) i.backed);
    counted = λ id. rw e (omega (arith, i.counted id, Write-count id w));
  }

module _ {F : Type 0} ⦃f : Float F⦄ (codec : Codec F) (sqs : OrderEventPublisher)
    (publisher : DispatchEventPublisher) (cfg : HandlerConfig) (decoder : EventDecoder F)
    (decodes : Decodes codec decoder) where
  -- A handling that announces its assignment.
  announced-IsAnnounced :
      (io : HandleIo) (m : Message) (s t : State F)
      → Write s.db t.db
      → (w : World F) → (t.db ≡ w.db) × (t.bus ≡ w.bus)
      → Announced codec io publisher cfg m (world_of s) w
      → IsAnnounced decoder s
      → IsAnnounced decoder t
  announced-IsAnnounced io m s t write w (same_db, same_bus)
        (order, e, (_, _, (driver, _, tells, written)), (detail, spelled, on_bus)) i =
      let (d, decoded, same) = decodes.round_trip e detail spelled in
      let row = assignment_row io.assign order.order_id driver.id e.distance_km in
      let entry = entry_of publisher detail in
      let all_rows = same_db ∙ written in
      let all_entries = same_bus ∙ on_bus in
      let stored : IsStored t.db d = record {
        row = row;
        there =
            subst (λ (u : Database F). Memᴰ row u.assignments) (sym all_rows)
              (mem_mid row s.db.assignments []);
        id = sym (ap (λ (x : DispatchAssigned F). x.assignment_id) tells) ∙ sym same.assignment_id;
        order_id = sym (ap (λ (x : DispatchAssigned F). x.order_id) tells) ∙ sym same.order_id;
        driver_id = sym (ap (λ (x : DispatchAssigned F). x.driver_id) tells) ∙ sym same.driver_id;
      } in
      let same_order : d.order_id ≡ order.order_id =
        same.order_id ∙ ap (λ (x : DispatchAssigned F). x.order_id) tells in
      record {
        backed = subst (All (IsBacked decoder t.db)) (sym all_entries) (
            All-append (IsBacked decoder t.db) s.bus (entry ∷ [])
              (All-mono _ _ s.bus (IsBacked-Write decoder write) i.backed)
              ((refl, d, decoded, stored), tt));
        counted = λ id.
            rw (all_rows, all_entries)
              (count-append_one (about decoder id) (of_order id) s.bus s.db.assignments entry row
                (rw (decoded, same_order) refl) (i.counted id));
      }

  pub Step-IsAnnounced :
      {s t : State F}
      → Step codec sqs publisher cfg s t
      → IsSchema s.db
      → IsAnnounced decoder s
      → IsAnnounced decoder t
  Step-IsAnnounced {s} {t} (creates io body e) schema i =
      quiet-IsAnnounced decoder (Step-Write codec sqs publisher cfg (creates io body e) schema)
        (ap (λ (u : State F). u.bus) e) i
  Step-IsAnnounced {s} {t} (registers io body e) schema i =
      quiet-IsAnnounced decoder (Step-Write codec sqs publisher cfg (registers io body e) schema)
        (ap (λ (u : State F). u.bus) e) i
  Step-IsAnnounced {s} {t} (reports io id body e) schema i =
      quiet-IsAnnounced decoder (Step-Write codec sqs publisher cfg (reports io id body e) schema)
        (ap (λ (u : State F). u.bus) e) i
  Step-IsAnnounced {s} {t} (delivers io m handle there e) schema i =
      let write = Step-Write codec sqs publisher cfg (delivers io m handle there e) schema in
      let w = (handle_message codec io publisher cfg (delivery m handle) (world_of s)).1 in
      elim (handle_message_bus codec io publisher cfg (delivery m handle) (world_of s)
        schema.order_keys) [
          | inl same ↦ quiet-IsAnnounced decoder write (ap (λ (u : State F). u.bus) e ∙ same) i
          | inr announced ↦
              announced-IsAnnounced io (delivery m handle) s t write w
                (ap (λ (u : State F). u.db) e, ap (λ (u : State F). u.bus) e) announced i
        ]

  module _ (faithful : IsFaithful codec) where
    pub Reach-IsAnnounced :
        {s t : State F}
        → IsSound codec sqs publisher cfg s
        → IsAnnounced decoder s
        → Reach codec sqs publisher cfg s t
        → IsAnnounced decoder t
    Reach-IsAnnounced sound i here = i
    Reach-IsAnnounced sound i (next r st) =
        Step-IsAnnounced st (Reach-IsSound codec sqs publisher cfg faithful sound r).schema
          (Reach-IsAnnounced sound i r)

    -- From a sound state where it is so: in every history of the services, whatever fails, the rule
    -- of the bus matches each event on it, each event decodes to the ids of a stored assignment, and
    -- there is at most one event for an order. The codec is assumed to parse what it printed for
    -- points on Earth, to the same order, and the decoder to find the ids that the codec printed.
    pub Reach-announced_once :
        {s t : State F} (id : Uuid)
        → IsSound codec sqs publisher cfg s
        → IsAnnounced decoder s
        → Reach codec sqs publisher cfg s t
        → All (IsBacked decoder t.db) t.bus × (count (about decoder id) t.bus ≤ 1)
    Reach-announced_once id sound i r =
        let after = Reach-IsAnnounced sound i r in
        let once = Reach-assigned_once codec sqs publisher cfg faithful id sound r in
        (after.backed, omega (arith, after.counted id, once))
