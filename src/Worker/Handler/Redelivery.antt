-- ===== src/Worker/Handler/Redelivery.antt =====
-- Messages that SQS delivers more than once.
use velocity_dispatch.Prelude.{
  ◌≡◌, refl, sym, ◌∙◌, inl, inr, List, [], ◌∷◌, Result, ok, err, and_then,
}
use mathlib.Core.Path.{subst}
use velocity_dispatch.Float.{Float}
use velocity_dispatch.Core.Model.{no_driver_in_range}
use velocity_dispatch.Core.Events.{OrderCreated, DispatchAssigned}
use velocity_dispatch.Core.Codec.{Codec}
use velocity_dispatch.Core.Geo.{nearest_driver}
use velocity_dispatch.Store.{Database, Distinct, Distinct-update_where}
use velocity_dispatch.Api.Db.{order_key}
use velocity_dispatch.Worker.Db.{claimable, set_assigned}
use velocity_dispatch.Worker.Matching.{
  AssignOutcome, assigned, already_handled, no_driver_available, WorkerError, sql, assign_order,
  Pending, candidates, Chose, IsAttempt, assign_order-IsAttempt, complete-not-Pending,
}
use velocity_dispatch.Worker.Eventbridge.{DispatchEventPublisher, publish}
use velocity_dispatch.Worker.Handler.Defs.{
  Message, HandlerConfig, World, HandleIo, on_db, conclude, handle_event, emit_match_outcome,
}
use velocity_dispatch.Worker.Handler.Parts.{delete_message-frame}

module _ {F : Type 0} ⦃f : Float F⦄ (codec : Codec F) (publisher : DispatchEventPublisher)
    (cfg : HandlerConfig) (message : Message) (event : OrderCreated F) where
  -- Deliveries of the same message, one after the other.
  unfoldable pub redeliver : List HandleIo → World F → World F
  redeliver [] w = w
  redeliver (io ∷ ios) w = redeliver ios (handle_event codec io publisher cfg message event w).1

  conclude_settled :
      (io : HandleIo) (w : World F)
      → ¬ Pending event.order_id w.db
      → (p : Result (WorkerError F) (AssignOutcome F) × Database F)
      → IsAttempt io.assign event.order_id event.pickup cfg.match_radius_km w.db p
      → let t = (and_then (on_db p w) (conclude codec io publisher cfg message event)).1 in
        (t.db ≡ w.db) × (t.bus ≡ w.bus)
  unfolding conclude
  conclude_settled io w s (ok (assigned e), db) a = absurd (s a.0)
  conclude_settled io w s (ok already_handled, db) a =
      let w' : World F = emit_match_outcome io cfg "already_handled" event (record w { db = db }) in
      let frame = delete_message-frame io.delete cfg message w' in (frame.0 ∙ a.1, frame.1)
  conclude_settled io w s (ok no_driver_available, db) a = absurd (s a.0)
  conclude_settled io w s (err (sql x), db) (inl same) = (same, refl)
  conclude_settled io w s (err (sql x), db) (inr (_, (e, a))) = absurd (s a.0)
  conclude_settled io w s (err _, db) a = absurd a

  handle_event_settled :
      (io : HandleIo) (w : World F)
      → Distinct order_key w.db.orders
      → ¬ Pending event.order_id w.db
      → let t = (handle_event codec io publisher cfg message event w).1 in
        (t.db ≡ w.db) × (t.bus ≡ w.bus)
  unfolding handle_event
  handle_event_settled io w d s =
      conclude_settled io w s
        (assign_order io.assign event.order_id event.pickup cfg.match_radius_km w.db)
        (assign_order-IsAttempt io.assign event.order_id event.pickup cfg.match_radius_km w.db d)

  -- Where orders have distinct ids, once the order of a message is not pending, any number of deliveries of the message, with any
  -- failures, leaves the database and the bus as they are.
  pub redeliver_settled :
      (ios : List HandleIo) (w : World F)
      → Distinct order_key w.db.orders
      → ¬ Pending event.order_id w.db
      → ((redeliver ios w).db ≡ w.db) × ((redeliver ios w).bus ≡ w.bus)
  unfolding redeliver
  redeliver_settled [] w d s = (refl, refl)
  redeliver_settled (io ∷ ios) w d s =
      let t = (handle_event codec io publisher cfg message event w).1 in
      let (same, quiet) = handle_event_settled io w d s in
      let rest = redeliver_settled ios t (rw same d) (rw same s) in (rest.0 ∙ same, rest.1 ∙ quiet)

  -- The choice leaves the orders with distinct ids.
  Chose-Distinct :
      (io : HandleIo) (db t : Database F) (e : DispatchAssigned F)
      → Chose io.assign event.order_id event.pickup cfg.match_radius_km db e t
      → Distinct order_key db.orders
      → Distinct order_key t.orders
  Chose-Distinct io db t e (_, _, (driver, _, _, written)) d =
      subst (λ (u : Database F). Distinct order_key u.orders) (sym written)
        (Distinct-update_where order_key (claimable event.order_id) set_assigned (λ _. refl)
          db.orders d)

  Chose-not-Pending :
      (io : HandleIo) (db t : Database F) (e : DispatchAssigned F)
      → Chose io.assign event.order_id event.pickup cfg.match_radius_km db e t
      → ¬ Pending event.order_id t
  Chose-not-Pending io db t e (_, _, (driver, _, _, written)) =
      subst (λ u. ¬ Pending event.order_id u) (sym written)
        (complete-not-Pending io.assign event.order_id driver.id e.distance_km db)

  conclude_unpublished :
      (io : HandleIo) (w : World F) (e : DispatchAssigned F) (x : WorkerError F)
      → (publish codec io.put publisher e w.bus).0 ≡ err x
      → (publish codec io.put publisher e w.bus).1 ≡ w.bus
      → (p : Result (WorkerError F) (AssignOutcome F) × Database F) → p.0 ≡ ok (assigned e)
      → let t = (and_then (on_db p w) (conclude codec io publisher cfg message event)).1 in
        (t.db ≡ p.1) × (t.bus ≡ w.bus) × (t.deleted ≡ w.deleted)
  unfolding conclude
  conclude_unpublished io w e x bad quiet (r, db) h = rw h (rw bad (refl, quiet, refl))

  Chose-of_result :
      (io : HandleIo) (db : Database F) (e : DispatchAssigned F)
      → (p : Result (WorkerError F) (AssignOutcome F) × Database F)
      → IsAttempt io.assign event.order_id event.pickup cfg.match_radius_km db p
      → p.0 ≡ ok (assigned e)
      → Chose io.assign event.order_id event.pickup cfg.match_radius_km db e p.1
  Chose-of_result io db e (ok (assigned e'), t) a h =
      let same : e' ≡ e = cc in
      subst (λ u. Chose io.assign event.order_id event.pickup cfg.match_radius_km db u t) same a
  Chose-of_result io db e (ok already_handled, t) a h = cc
  Chose-of_result io db e (ok no_driver_available, t) a h = cc
  Chose-of_result io db e (err x, t) a h = cc

  -- Where orders have distinct ids: if the attempt commits an assignment and the publish of its event
  -- then fails and leaves the bus as it was, the assignment stays in the database and the event never reaches the bus, however often the message is
  -- delivered again.
  pub failed_publish_loses_event :
      (io : HandleIo) (ios : List HandleIo) (w : World F) (e : DispatchAssigned F)
      (x : WorkerError F)
      → Distinct order_key w.db.orders
      → (assign_order io.assign event.order_id event.pickup cfg.match_radius_km w.db).0
        ≡ ok (assigned e)
      → (publish codec io.put publisher e w.bus).0 ≡ err x
      → (publish codec io.put publisher e w.bus).1 ≡ w.bus
      → let t = redeliver (io ∷ ios) w in
        Chose io.assign event.order_id event.pickup cfg.match_radius_km w.db e t.db
        × (t.bus ≡ w.bus)
  unfolding redeliver handle_event
  failed_publish_loses_event io ios w e x d won bad quiet =
      let p = assign_order io.assign event.order_id event.pickup cfg.match_radius_km w.db in
      let t = (and_then (on_db p w) (conclude codec io publisher cfg message event)).1 in
      let chose =
        Chose-of_result io w.db e p
          (assign_order-IsAttempt io.assign event.order_id event.pickup cfg.match_radius_km w.db d)
          won in
      let (stored, silent, _) = conclude_unpublished io w e x bad quiet p won in
      let chosen =
        subst (λ u. Chose io.assign event.order_id event.pickup cfg.match_radius_km w.db e u)
          (sym stored) chose in
      let later =
        redeliver_settled ios t (Chose-Distinct io w.db t.db e chosen d)
          (Chose-not-Pending io w.db t.db e chosen) in
      (
        subst (λ u. Chose io.assign event.order_id event.pickup cfg.match_radius_km w.db e u)
            (sym later.0) chosen,
        later.1 ∙ silent,
      )

  conclude_no_driver :
      (io : HandleIo) (w : World F)
      → nearest_driver event.pickup (candidates io.assign w.db) cfg.match_radius_km
        ≡ err (no_driver_in_range cfg.match_radius_km)
      → Pending event.order_id w.db
      → (p : Result (WorkerError F) (AssignOutcome F) × Database F)
      → IsAttempt io.assign event.order_id event.pickup cfg.match_radius_km w.db p
      → let t = (and_then (on_db p w) (conclude codec io publisher cfg message event)).1 in
        (t.db ≡ w.db) × (t.bus ≡ w.bus) × (t.deleted ≡ w.deleted)
  unfolding conclude
  conclude_no_driver io w n q (ok (assigned e), db) (_, _, (driver, near, _, _)) = cc
  conclude_no_driver io w n q (ok already_handled, db) a = absurd (a.0 q)
  conclude_no_driver io w n q (ok no_driver_available, db) a = (a.2, refl, refl)
  conclude_no_driver io w n q (err (sql x), db) (inl same) = (same, refl, refl)
  conclude_no_driver io w n q (err (sql x), db) (inr (_, (e, (_, _, (driver, near, _, _))))) = cc
  conclude_no_driver io w n q (err _, db) a = absurd a

  -- Where orders have distinct ids: while no unlocked available driver is in range of a pending order, a delivery changes neither the
  -- database nor the bus and does not acknowledge the message, so that it will be tried again.
  pub handle_event_no_driver :
      (io : HandleIo) (w : World F)
      → Distinct order_key w.db.orders
      → Pending event.order_id w.db
      → nearest_driver event.pickup (candidates io.assign w.db) cfg.match_radius_km
        ≡ err (no_driver_in_range cfg.match_radius_km)
      → let t = (handle_event codec io publisher cfg message event w).1 in
        (t.db ≡ w.db) × (t.bus ≡ w.bus) × (t.deleted ≡ w.deleted)
  unfolding handle_event
  handle_event_no_driver io w d q n =
      conclude_no_driver io w n q
        (assign_order io.assign event.order_id event.pickup cfg.match_radius_km w.db)
        (assign_order-IsAttempt io.assign event.order_id event.pickup cfg.match_radius_km w.db d)
