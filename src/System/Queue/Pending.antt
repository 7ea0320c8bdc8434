-- ===== src/System/Queue/Pending.antt =====
-- Which orders are pending after a change of the tables.
use mathlib.Core.Path.{subst}
use velocity_dispatch.Prelude.{
  ℕ, Result, ok, err, ◌≡◌, ◌⊎◌, sym, ◌∙◌, inl, inr, ◌∷◌, [], ◌++◌, Bool-cases, ℕ-cases, Outcome,
  done, failed, lost,
}
use velocity_dispatch.Float.{Float}
use velocity_dispatch.Core.Model.{Uuid, DateTime, Order, GeoPoint}
use velocity_dispatch.Core.Codec.{Codec}
use velocity_dispatch.Store.{Distinct, Database, has, row_of-append_other}
use velocity_dispatch.Api.Db.{order_key, row_of_order, insert_order, insert_order_row}
use velocity_dispatch.Api.Routes.{AppState, CreateIo, CreateOrderRequest, create_order, requested}
use velocity_dispatch.Worker.Matching.{
  AssignOutcome, WorkerError, sql, assigned, already_handled, no_driver_available, IsAttempt,
  assign_order, assign_order-IsAttempt, AssignIo, Pending, complete, complete-not-Pending,
}
use velocity_dispatch.Worker.Matching.Claim.{claimed-other}
use velocity_dispatch.Worker.Eventbridge.{DispatchEventPublisher}
use velocity_dispatch.Worker.Handler.{Message, HandlerConfig, World, HandleIo, handle_message}
use velocity_dispatch.System.Handlers.{create_order_db, handle_message_db}

module _ {F : Type 0} where
  -- A new order, or one that was pending before.
  appended-Pending :
      (stored : DateTime) (o : Order F) (db : Database F) (id : Uuid)
      → Pending id (record db { orders = db.orders ++ row_of_order stored o ∷ [] })
      → Pending id db ⊎ (id ≡ o.id)
  appended-Pending stored o db id (row, found, p) = elim (ℕ-cases id o.id) [
    | inl this ↦ inr this
    | inr other ↦ inl (
      row,
      sym (row_of-append_other order_key id db.orders (row_of_order stored o) other) ∙ found,
      p,
    )
  ]

  insert_order-Pending :
      (io : Outcome) (stored : DateTime) (o : Order F) (db : Database F) (id : Uuid)
      → Pending id (insert_order io stored o db).1
      → Pending id db ⊎ (id ≡ o.id)
  unfolding insert_order insert_order_row
  insert_order-Pending failed stored o db id p = inl p
  insert_order-Pending done stored o db id p = elim (Bool-cases (has order_key o.id db.orders)) [
    | inl old ↦ inl (rw old at p)
    | inr new ↦ appended-Pending stored o db id (rw new at p)
  ]
  insert_order-Pending lost stored o db id p = elim (Bool-cases (has order_key o.id db.orders)) [
    | inl old ↦ inl (rw old at p)
    | inr new ↦ appended-Pending stored o db id (rw new at p)
  ]

  pub create_order-Pending :
      ⦃f : Float F⦄ (codec : Codec F) (io : CreateIo) (body : CreateOrderRequest F) (s : AppState F)
      (id : Uuid)
      → Pending id (create_order codec io body s).1.db
      → Pending id s.db ⊎ (id ≡ io.new_id)
  create_order-Pending codec io body s id p = elim (create_order_db codec io body s) [
    | inl e ↦ inl (subst (Pending id) e p)
    | inr e ↦
        insert_order-Pending io.insert io.stored_at (requested io body) s.db id
          (subst (Pending id) e p)
  ]

  -- What the three writes for an order leave pending.
  complete-Pending :
      (io : AssignIo) (order_id driver_id : Uuid) (x : F) (db : Database F) (id : Uuid)
      → Pending id (complete io order_id driver_id x db)
      → Pending id db
  complete-Pending io order_id driver_id x db id (row, found, p) = elim (ℕ-cases id order_id) [
    | inl this ↦ absurd (
        complete-not-Pending io order_id driver_id x db
          (subst (λ k. Pending k (complete io order_id driver_id x db)) this (row, found, p)))
    | inr other ↦ (row, sym (claimed-other id order_id db.orders other) ∙ found, p)
  ]

module _ {F : Type 0} ⦃f : Float F⦄ where
  attempt-Pending :
      (io : AssignIo) (order_id : Uuid) (pickup : GeoPoint F) (radius_km : ℕ) (db : Database F)
      (id : Uuid) (p : Result (WorkerError F) (AssignOutcome F) × Database F)
      → IsAttempt io order_id pickup radius_km db p
      → Pending id p.1
      → Pending id db
  attempt-Pending io k pickup r db id (ok (assigned e), t) (_, _, (d, _, _, written)) p =
      complete-Pending io k d.id e.distance_km db id (subst (Pending id) written p)
  attempt-Pending io k pickup r db id (ok already_handled, t) a p = subst (Pending id) a.1 p
  attempt-Pending io k pickup r db id (ok no_driver_available, t) a p = subst (Pending id) a.2 p
  attempt-Pending io k pickup r db id (err (sql x), t) (inl e) p = subst (Pending id) e p
  attempt-Pending io k pickup r db id (err (sql x), t) (inr (_, (e, (_, _, (d, _, _, written)))))
        p =
      complete-Pending io k d.id e.distance_km db id (subst (Pending id) written p)
  attempt-Pending io k pickup r db id (err _, t) a p = absurd a

  -- A worker makes no order pending.
  pub handle_message-Pending :
      (codec : Codec F) (io : HandleIo) (publisher : DispatchEventPublisher) (cfg : HandlerConfig)
      (message : Message) (w : World F) (id : Uuid)
      → Distinct order_key w.db.orders
      → Pending id (handle_message codec io publisher cfg message w).1.db
      → Pending id w.db
  handle_message-Pending codec io publisher cfg message w id d p =
      elim (handle_message_db codec io publisher cfg message w) [
        | inl e ↦ subst (Pending id) e p
        | inr (event, e) ↦
            attempt-Pending io.assign event.order_id event.pickup cfg.match_radius_km w.db id
              (assign_order io.assign event.order_id event.pickup cfg.match_radius_km w.db)
              (assign_order-IsAttempt io.assign event.order_id event.pickup cfg.match_radius_km w.db
                d)
              (subst (Pending id) e p)
      ]
