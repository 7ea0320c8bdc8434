-- ===== src/System/Sound.antt =====
-- What holds in every state that the system reaches.
use velocity_dispatch.Prelude.{
  ◌≤◌, ◌≡◌, sym, ap, ◌∙◌, inl, inr, true, [], ◌∷◌, some, count, All, All-mono, All-append, arith,
}
use mathlib.Core.Path.{subst}
use velocity_dispatch.Float.{Float}
use velocity_dispatch.Core.Model.{Uuid}
use velocity_dispatch.Core.Coordinates.{IsOnEarth}
use velocity_dispatch.Core.Events.{OrderCreated}
use velocity_dispatch.Core.Codec.{Codec, IsFaithful}
use velocity_dispatch.Store.{Database, has, has_of_row, row_of, IsSchema}
use velocity_dispatch.Api.Db.{order_key}
use velocity_dispatch.Api.Sqs.{SendMessage, message_of, OrderEventPublisher}
use velocity_dispatch.Api.Routes.{
  CreateIo, CreateOrderRequest, create_order_stored_first, message, requested, event_of, to_point,
}
use velocity_dispatch.Worker.Eventbridge.{DispatchEventPublisher}
use velocity_dispatch.Worker.Handler.{HandlerConfig}
use velocity_dispatch.System.Writes.{Write, of_order, due_bounds, IsBalanced}
use velocity_dispatch.System.Keeps.{Write-IsBalanced}
use velocity_dispatch.System.Schema.{Write-IsSchema, Write-has}
use velocity_dispatch.System.Handlers.{
  create_order-Write, register_driver-Write, update_driver_location-Write, handle_message-Write,
  register_driver-frame, update_driver_location-frame,
}
use velocity_dispatch.System.Run.{
  State, api_of, world_of, delivery, Step, creates, registers, reports, delivers, Reach, here, next,
}

module _ {F : Type 0} ⦃f : Float F⦄ (codec : Codec F) (sqs : OrderEventPublisher)
    (publisher : DispatchEventPublisher) (cfg : HandlerConfig) where
  abbrev pub Moves : State F → State F → Type 0
  Moves s t = Step codec sqs publisher cfg s t

  -- The message parses, and its order is stored.
  abbrev pub IsKnown : Database F → SendMessage → Type 0
  IsKnown db m =
      (event : OrderCreated F) × (codec.order_from_str m.message_body ≡ some event)
      × (has order_key event.order_id db.orders ≡ true)

  pub record IsSound (s : State F) : Type 0 where
    pub schema : IsSchema s.db
    pub balanced : IsBalanced s.db
    pub known : All (IsKnown s.db) s.sent

  pub Step-Write : {s t : State F} → Moves s t → IsSchema s.db → Write s.db t.db
  Step-Write {s} (creates io body e) c =
      subst (λ (u : State F). Write s.db u.db) (sym e)
        (create_order-Write codec io body (api_of sqs s))
  Step-Write {s} (registers io body e) c =
      subst (λ (u : State F). Write s.db u.db) (sym e)
        (register_driver-Write io body (api_of sqs s))
  Step-Write {s} (reports io id body e) c =
      subst (λ (u : State F). Write s.db u.db) (sym e)
        (update_driver_location-Write io id body (api_of sqs s))
  Step-Write {s} (delivers io m handle _ e) c =
      subst (λ (u : State F). Write s.db u.db) (sym e)
        (handle_message-Write codec io publisher cfg (delivery m handle) (world_of s) c.order_keys)

  IsKnown-Write : {db t : Database F} → Write db t → (m : SendMessage) → IsKnown db m → IsKnown t m
  IsKnown-Write w m (event, parses, there) = (event, parses, Write-has w event.order_id there)

  module _ (faithful : IsFaithful codec) where
    fresh-IsKnown :
        (io : CreateIo) (body : CreateOrderRequest F) (t : State F)
        (publisher' : OrderEventPublisher)
        → has order_key io.new_id t.db.orders ≡ true
        → IsOnEarth (to_point body.pickup)
        → IsOnEarth (to_point body.dropoff)
        → IsKnown t.db (message_of codec publisher' (event_of (requested io body)))
    fresh-IsKnown io body t publisher' h p d =
        let (event, parses, same_id, _) =
          faithful.order_round_trip (event_of (requested io body)) p d in
        (event, parses, rw same_id h)

    Step-IsKnown :
        {s t : State F}
        → Moves s t
        → Write s.db t.db
        → All (IsKnown s.db) s.sent
        → All (IsKnown t.db) t.sent
    Step-IsKnown {s} {t} (creates io body e) w k =
        let kept = All-mono (IsKnown s.db) (IsKnown t.db) s.sent (λ m h. IsKnown-Write w m h) k in
        elim (create_order_stored_first codec io body (api_of sqs s)) [
          | inl quiet ↦
              subst (All (IsKnown t.db)) (sym (ap (λ (u : State F). u.sent) e ∙ quiet)) kept
          | inr (more, stored, p, d) ↦
              subst (All (IsKnown t.db)) (sym (ap (λ (u : State F). u.sent) e ∙ more)) (
                All-append (IsKnown t.db) s.sent (message codec io body (api_of sqs s) ∷ []) kept (
                  fresh-IsKnown io body t sqs (rw e (has_of_row order_key io.new_id _ _ stored)) p
                      d,
                  tt,
                ))
        ]
    Step-IsKnown {s} {t} (registers io body e) w k =
        subst (All (IsKnown t.db))
          (sym (ap (λ (u : State F). u.sent) e ∙ (register_driver-frame io body (api_of sqs s)).0))
          (All-mono (IsKnown s.db) (IsKnown t.db) s.sent (λ m h. IsKnown-Write w m h) k)
    Step-IsKnown {s} {t} (reports io id body e) w k =
        subst (All (IsKnown t.db))
          (sym (
            ap (λ (u : State F). u.sent) e
            ∙ (update_driver_location-frame io id body (api_of sqs s)).0))
          (All-mono (IsKnown s.db) (IsKnown t.db) s.sent (λ m h. IsKnown-Write w m h) k)
    Step-IsKnown {s} {t} (delivers io m handle _ e) w k =
        subst (All (IsKnown t.db)) (sym (ap (λ (u : State F). u.sent) e))
          (All-mono (IsKnown s.db) (IsKnown t.db) s.sent (λ m h. IsKnown-Write w m h) k)

    pub Step-IsSound : {s t : State F} → Moves s t → IsSound s → IsSound t
    Step-IsSound st i =
        let w = Step-Write st i.schema in
        record {
          schema = Write-IsSchema w i.schema;
          balanced = Write-IsBalanced w i.balanced;
          known = Step-IsKnown st w i.known;
        }

    -- From a sound state, every history keeps the constraints of the schema, the balance of orders
    -- and assignments, and that every message ever published parses to an order that is stored. The
    -- codec is assumed to parse what it printed for points on Earth, to the same order.
    pub Reach-IsSound : {s t : State F} → IsSound s → Reach codec sqs publisher cfg s t → IsSound t
    Reach-IsSound i here = i
    Reach-IsSound i (next r st) = Step-IsSound st (Reach-IsSound i r)

    -- From a sound state, in every history, an order has at most one assignment. The codec is assumed
    -- to parse what it printed for points on Earth, to the same order.
    pub Reach-assigned_once :
        {s t : State F} (id : Uuid)
        → IsSound s
        → Reach codec sqs publisher cfg s t
        → count (of_order id) t.db.assignments ≤ 1
    Reach-assigned_once {s} {t} id i r =
        omega (arith, (Reach-IsSound i r).balanced id, due_bounds (row_of order_key id t.db.orders))
