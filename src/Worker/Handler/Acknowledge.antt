-- ===== src/Worker/Handler/Acknowledge.antt =====
-- When a message is acknowledged, and what a handling leaves behind.
use velocity_dispatch.Prelude.{
  ◌≡◌, refl, ◌∙◌, ◌⊎◌, inl, inr, String, none, some, Option-cases, Result, ok, err, and_then,
}
use velocity_dispatch.Float.{Float}
use velocity_dispatch.Core.Events.{OrderCreated, DispatchAssigned}
use velocity_dispatch.Core.Codec.{Codec}
use velocity_dispatch.Store.{Database, Distinct}
use velocity_dispatch.Api.Db.{order_key}
use velocity_dispatch.Worker.Matching.{
  AssignOutcome, assigned, already_handled, no_driver_available, WorkerError, assign_order, Pending,
  Chose, IsAttempt, assign_order-IsAttempt,
}
use velocity_dispatch.Worker.Eventbridge.{DispatchEventPublisher, publish}
use velocity_dispatch.Worker.Handler.Defs.{
  Message, HandlerConfig, World, HandleIo, on_db, conclude, handle_event, handle_message,
  emit_match_outcome,
}
use velocity_dispatch.Worker.Handler.Parts.{delete_message-frame, Published, publish_cases}

module _ {F : Type 0} ⦃f : Float F⦄ (codec : Codec F) (io : HandleIo)
    (publisher : DispatchEventPublisher) (cfg : HandlerConfig) (message : Message) where
  -- What an acknowledged event leaves: the assignment is stored and published, or there was nothing
  -- to do.
  abbrev pub Settled : OrderCreated F → World F → World F → Type 0
  Settled event w t =
      ((¬ Pending event.order_id w.db) × (t.db ≡ w.db) × (t.bus ≡ w.bus))
      ⊎ ((e : DispatchAssigned F) × Chose io.assign event.order_id event.pickup cfg.match_radius_km
            w.db e t.db
          × Published codec publisher e w.bus t.bus)

  conclude-Settled :
      (event : OrderCreated F) (w : World F)
      → (p : Result (WorkerError F) (AssignOutcome F) × Database F)
      → IsAttempt io.assign event.order_id event.pickup cfg.match_radius_km w.db p
      → let t = (and_then (on_db p w) (conclude codec io publisher cfg message event)).1 in
        (t.deleted ≡ w.deleted) ⊎ Settled event w t
  unfolding conclude
  conclude-Settled event w (ok (assigned e), db) a =
      elim (publish_cases codec io.put publisher e w.bus) [
        | inr (x, h) ↦ rw h (inl refl)
        | inl (h, (detail, spelled, on_it)) ↦ rw h (
            let w' : World F =
              record (emit_match_outcome io cfg "assigned" event (record w { db = db })) {
                bus = (publish codec io.put publisher e w.bus).1;
              } in
            let frame = delete_message-frame io.delete cfg message w' in
            let (pending, new, (driver, near, about, written)) = a in
            inr (
              inr (
                e,
                (pending, new, (driver, near, about, frame.0 ∙ written)),
                (detail, spelled, frame.1 ∙ on_it),
              )))
      ]
  conclude-Settled event w (ok already_handled, db) a =
      let w' : World F = emit_match_outcome io cfg "already_handled" event (record w { db = db }) in
      let frame = delete_message-frame io.delete cfg message w' in
      inr (inl (a.0, frame.0 ∙ a.1, frame.1))
  conclude-Settled event w (ok no_driver_available, db) a = inl refl
  conclude-Settled event w (err x, db) a = inl refl

  handle_event-Settled :
      (event : OrderCreated F) (w : World F)
      → Distinct order_key w.db.orders
      → let t = (handle_event codec io publisher cfg message event w).1 in
        (t.deleted ≡ w.deleted) ⊎ Settled event w t
  unfolding handle_event
  handle_event-Settled event w d =
      conclude-Settled event w
        (assign_order io.assign event.order_id event.pickup cfg.match_radius_km w.db)
        (assign_order-IsAttempt io.assign event.order_id event.pickup cfg.match_radius_km w.db d)

  -- Where orders have distinct ids: if a handling asks SQS to delete the message, then the message had
  -- no body; or its order was not pending, and the database and the bus are as before; or its order
  -- was pending, all three writes for the nearest driver are stored, and the event is on the bus.
  pub handle_message_acknowledges :
      (w : World F)
      → Distinct order_key w.db.orders
      → let t = (handle_message codec io publisher cfg message w).1 in
        (t.deleted ≡ w.deleted)
        ⊎ (message.body ≡ none)
        ⊎ ((body : String) × (event : OrderCreated F) × (message.body ≡ some body)
            × (codec.order_from_str body ≡ some event)
            × Settled event w t)
  unfolding handle_message
  handle_message_acknowledges w d = elim (Option-cases message.body) [
    | inl no_body ↦ inr (inl no_body)
    | inr (body, there) ↦ elim (Option-cases (codec.order_from_str body)) [
      | inl bad ↦ simp there (rw bad (inl refl))
      | inr (event, good) ↦ simp there (
          rw good (elim (handle_event-Settled event w d) [
            | inl same ↦ inl same
            | inr settled ↦ inr (inr (body, event, refl, good, settled))
          ]))
    ]
  ]
