-- ===== src/Worker/Handler/Bus.antt =====
-- What a handling puts on the bus.
use velocity_dispatch.Prelude.{
  ◌≡◌, refl, ◌∙◌, ◌⊎◌, inl, inr, Option-cases, Result, ok, err, and_then, Result-cases,
}
use velocity_dispatch.Float.{Float}
use velocity_dispatch.Core.Events.{OrderCreated, DispatchAssigned}
use velocity_dispatch.Core.Codec.{Codec}
use velocity_dispatch.Store.{Database, Distinct}
use velocity_dispatch.Api.Db.{order_key}
use velocity_dispatch.Worker.Matching.{
  AssignOutcome, assigned, already_handled, no_driver_available, WorkerError, assign_order, Chose,
  IsAttempt, assign_order-IsAttempt,
}
use velocity_dispatch.Worker.Eventbridge.{DispatchEventPublisher, publish}
use velocity_dispatch.Worker.Handler.Defs.{
  Message, HandlerConfig, World, HandleIo, on_db, conclude, handle_event, handle_message,
}
use velocity_dispatch.Worker.Handler.Parts.{delete_message-frame, Published, publish_bus}

module _ {F : Type 0} ⦃f : Float F⦄ (codec : Codec F) (io : HandleIo)
    (publisher : DispatchEventPublisher) (cfg : HandlerConfig) (message : Message) where
  -- The event of an assignment that the handling stores, on the bus.
  abbrev pub Announced : World F → World F → Type 0
  Announced w t =
      (event : OrderCreated F) × (e : DispatchAssigned F) × Chose io.assign event.order_id
        event.pickup cfg.match_radius_km w.db e t.db
      × Published codec publisher e w.bus t.bus

  -- What follows an assignment touches only the bus, the queue and the log.
  conclude_assigned :
      (event : OrderCreated F) (w : World F) (e : DispatchAssigned F) (db : Database F)
      → let t =
          (and_then
            (on_db (ok (assigned e), db) w)
            (conclude codec io publisher cfg message event)).1 in
        (t.db ≡ db) × (t.bus ≡ (publish codec io.put publisher e w.bus).1)
  unfolding conclude
  conclude_assigned event w e db = elim (Result-cases (publish codec io.put publisher e w.bus).0) [
    | inl (_, h) ↦
        let frame = delete_message-frame io.delete cfg message _ in rw h (frame.0, frame.1)
    | inr (x, h) ↦ rw h (refl, refl)
  ]

  conclude_bus :
      (event : OrderCreated F) (w : World F)
      (p : Result (WorkerError F) (AssignOutcome F) × Database F)
      → IsAttempt io.assign event.order_id event.pickup cfg.match_radius_km w.db p
      → let t = (and_then (on_db p w) (conclude codec io publisher cfg message event)).1 in
        (t.bus ≡ w.bus) ⊎ Announced w t
  unfolding conclude
  conclude_bus event w (ok (assigned e), db) a =
      let (stored, on_bus) = conclude_assigned event w e db in
      elim (publish_bus codec io.put publisher e w.bus) [
        | inl same ↦ inl (on_bus ∙ same)
        | inr (detail, spelled, more) ↦
            let (pending, new, (driver, near, about, written)) = a in
            inr (
              event,
              e,
              (pending, new, (driver, near, about, stored ∙ written)),
              (detail, spelled, on_bus ∙ more),
            )
      ]
  conclude_bus event w (ok already_handled, db) a =
      inl (delete_message-frame io.delete cfg message _).1
  conclude_bus event w (ok no_driver_available, db) a = inl refl
  conclude_bus event w (err x, db) a = inl refl

  -- A handling leaves the bus, or adds the event of the assignment that it stores.
  pub handle_message_bus :
      (w : World F)
      → Distinct order_key w.db.orders
      → let t = (handle_message codec io publisher cfg message w).1 in
        (t.bus ≡ w.bus) ⊎ Announced w t
  unfolding handle_message handle_event
  handle_message_bus w d = elim (Option-cases message.body) [
    | inl no_body ↦ simp no_body (inl (delete_message-frame io.delete cfg message w).1)
    | inr (body, there) ↦ elim (Option-cases (codec.order_from_str body)) [
      | inl bad ↦ simp there (rw bad (inl refl))
      | inr (event, good) ↦ simp there (
          rw good (
            conclude_bus event w
              (assign_order io.assign event.order_id event.pickup cfg.match_radius_km w.db)
              (assign_order-IsAttempt io.assign event.order_id event.pickup cfg.match_radius_km w.db
                d)))
    ]
  ]
