-- ===== src/System/Handlers/Worker.antt =====
-- An attempt, and a handled message, make one write or none.
use velocity_dispatch.Prelude.{
  ℕ, ◌≡◌, ◌⊎◌, refl, sym, inl, inr, Option-cases, Result, ok, err, Result-cases, and_then,
}
use mathlib.Core.Path.{subst}
use velocity_dispatch.Float.{Float}
use velocity_dispatch.Core.Model.{Uuid, GeoPoint}
use velocity_dispatch.Core.Events.{OrderCreated, DispatchAssigned}
use velocity_dispatch.Core.Codec.{Codec}
use velocity_dispatch.Store.{Database, Distinct}
use velocity_dispatch.Api.Db.{order_key}
use velocity_dispatch.Worker.Matching.{
  AssignOutcome, assigned, already_handled, no_driver_available, WorkerError, sql, assign_order,
  IsAttempt, Chose, assign_order-IsAttempt, candidates-has, candidates, AssignIo,
}
use velocity_dispatch.Core.Geo.Nearest.{nearest_driver-IsEligible}
use velocity_dispatch.Worker.Eventbridge.{DispatchEventPublisher, publish}
use velocity_dispatch.Worker.Handler.{
  Message, HandlerConfig, World, HandleIo, on_db, conclude, handle_event, handle_message,
  delete_message-frame,
}
use velocity_dispatch.System.Writes.{Write, same, assigns}

module _ {F : Type 0} ⦃f : Float F⦄ where
  Chose-Write :
      (io : AssignIo) (id : Uuid) (pickup : GeoPoint F) (radius_km : ℕ) (db t : Database F)
      (e : DispatchAssigned F)
      → Chose io id pickup radius_km db e t
      → Write db t
  Chose-Write io id pickup r db t e (p, new, (driver, near, about, written)) =
      assigns io id driver.id e.distance_km p new
        (candidates-has io db driver
          (nearest_driver-IsEligible pickup (candidates io db) r (driver, e.distance_km)
            near).offered)
        written

  pub attempt-Write :
      (io : AssignIo) (id : Uuid) (pickup : GeoPoint F) (radius_km : ℕ) (db : Database F)
      → (p : Result (WorkerError F) (AssignOutcome F) × Database F)
      → IsAttempt io id pickup radius_km db p
      → Write db p.1
  attempt-Write io id pickup r db (ok (assigned e), t) a = Chose-Write io id pickup r db t e a
  attempt-Write io id pickup r db (ok already_handled, t) a = same a.1
  attempt-Write io id pickup r db (ok no_driver_available, t) a = same a.2
  attempt-Write io id pickup r db (err (sql x), t) (inl e) = same e
  attempt-Write io id pickup r db (err (sql x), t) (inr (_, (e, a))) =
      Chose-Write io id pickup r db t e a
  attempt-Write io id pickup r db (err _, t) a = absurd a

  module _ (codec : Codec F) (io : HandleIo) (publisher : DispatchEventPublisher)
      (cfg : HandlerConfig) (message : Message) where
    -- What follows the attempt leaves the database as the attempt did.
    conclude-db :
        (event : OrderCreated F) (w : World F)
        (p : Result (WorkerError F) (AssignOutcome F) × Database F)
        → (and_then (on_db p w) (conclude codec io publisher cfg message event)).1.db ≡ p.1
    unfolding conclude
    conclude-db event w (ok (assigned e), t) =
        elim (Result-cases (publish codec io.put publisher e w.bus).0) [
          | inl (_, h) ↦ rw h (delete_message-frame io.delete cfg message _).0
          | inr (x, h) ↦ rw h
        ]
    conclude-db event w (ok already_handled, t) = (delete_message-frame io.delete cfg message _).0
    conclude-db event w (ok no_driver_available, t) = refl
    conclude-db event w (err x, t) = refl

    -- A handling leaves the database, or what an attempt leaves of it.
    pub handle_message_db :
        (w : World F)
        → let t = (handle_message codec io publisher cfg message w).1 in
          (t.db ≡ w.db)
          ⊎ ((event : OrderCreated F) × (t.db
                ≡ (assign_order io.assign event.order_id event.pickup cfg.match_radius_km w.db).1))
    unfolding handle_message handle_event
    handle_message_db w = elim (Option-cases message.body) [
      | inl no_body ↦ simp no_body (inl (delete_message-frame io.delete cfg message w).0)
      | inr (body, there) ↦ elim (Option-cases (codec.order_from_str body)) [
        | inl bad ↦ simp there (rw bad (inl refl))
        | inr (event, good) ↦ simp there (
            rw good (
              inr (
                event,
                conclude-db event w
                    (assign_order io.assign event.order_id event.pickup cfg.match_radius_km w.db),
              )))
      ]
    ]

    pub handle_message-Write :
        (w : World F)
        → Distinct order_key w.db.orders
        → Write w.db (handle_message codec io publisher cfg message w).1.db
    handle_message-Write w d = elim (handle_message_db w) [
      | inl e ↦ same e
      | inr (event, e) ↦ subst (Write w.db) (sym e) (
          attempt-Write io.assign event.order_id event.pickup cfg.match_radius_km w.db
            (assign_order io.assign event.order_id event.pickup cfg.match_radius_km w.db)
            (assign_order-IsAttempt io.assign event.order_id event.pickup cfg.match_radius_km w.db
              d))
    ]
