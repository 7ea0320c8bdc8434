-- ===== src/System/Queue/Kept.antt =====
-- No order is lost on its way to the workers.
use mathlib.Core.Path.{subst}
use velocity_dispatch.Prelude.{
  ℕ, ◌≡◌, refl, sym, ◌∙◌, ap, inl, inr, [], ◌∷◌, ◌++◌, Memᴰ, String, append-ne,
}
use velocity_dispatch.Float.{Float}
use velocity_dispatch.Core.Model.{Uuid}
use velocity_dispatch.Core.Codec.{Codec, IsFaithful}
use velocity_dispatch.Core.Events.{OrderCreated}
use velocity_dispatch.Store.{row_of, IsSchema}
use velocity_dispatch.Api.Db.{order_key}
use velocity_dispatch.Api.Sqs.{SendMessage, OrderEventPublisher}
use velocity_dispatch.Api.Routes.{
  CreateIo, CreateOrderRequest, create_order_stored_first, requested, event_of, message,
}
use velocity_dispatch.Worker.Matching.{Pending, complete-not-Pending}
use velocity_dispatch.Worker.Eventbridge.{DispatchEventPublisher}
use velocity_dispatch.Worker.Handler.{
  Message, handle_message, HandlerConfig, HandleIo, World, Settled, handle_message_acknowledges,
}
use velocity_dispatch.System.Run.{delivery, api_of, world_of}
use velocity_dispatch.System.Schema.{Write-IsSchema}
use velocity_dispatch.System.Handlers.{
  create_order-Write, register_driver-Write, register_driver-frame, update_driver_location-frame,
  update_driver_location-Write, handle_message-Write,
}
use velocity_dispatch.System.Queue.{
  Mail, letter, requests, handles, Receives, deletes, leaves, redrives, Post, sends, sends_nothing,
  registers, reports, receives, repeats, Posts, nothing, then_post,
}
use velocity_dispatch.System.Queue.Pending.{create_order-Pending, handle_message-Pending}
use velocity_dispatch.System.Queue.Tracked.{
  IsAbout, IsTracked, IsKept, without, with_again, with_dead,
}

module _ {F : Type 0} ⦃f : Float F⦄ (codec : Codec F) (sqs : OrderEventPublisher)
    (publisher : DispatchEventPublisher) (cfg : HandlerConfig) where
  Settled-not-Pending :
      (io : HandleIo) (received : Message) (event : OrderCreated F) (w t : World F)
      → Settled codec io publisher cfg received event w t
      → Pending event.order_id w.db
      → ¬ Pending event.order_id t.db
  Settled-not-Pending io _ event w t (inl (not_before, _, _)) before after = not_before before
  Settled-not-Pending io _ event w t (inr (e, (_, _, (d, _, _, written)), _)) before after =
      complete-not-Pending io.assign event.order_id d.id e.distance_km w.db
        (subst (Pending event.order_id) written after)

  -- Once its message is deleted, an order is not pending.
  deleted-not-Pending :
      (io : HandleIo) (m : SendMessage) (handle : String) (s : Mail F) (id : Uuid)
      → IsSchema s.state.db
      → ¬ ((handles codec sqs publisher cfg io m handle s).deleted ≡ s.state.deleted)
      → IsAbout codec id m
      → Pending id s.state.db
      → ¬ Pending id (handles codec sqs publisher cfg io m handle s).db
  deleted-not-Pending io m handle s id schema deleted (event, parses, names) before after =
      elim (handle_message_acknowledges codec io publisher cfg (delivery m handle)
        (world_of s.state) schema.order_keys) [
          | inl kept ↦ deleted kept
          | inr (inl no_body) ↦ cc
          | inr (inr (body, event', is_body, parses', settled)) ↦
              let same_id : event'.order_id ≡ id = cc in
              Settled-not-Pending io (delivery m handle) event' (world_of s.state)
                (handle_message codec io publisher cfg (delivery m handle) (world_of s.state)).1
                settled (subst (λ k. Pending k s.state.db) (sym same_id) before)
                (subst (λ k. Pending k (handles codec sqs publisher cfg io m handle s).db)
                  (sym same_id) after)
        ]

  pub handles-IsSchema :
      (io : HandleIo) (m : SendMessage) (handle : String) (s : Mail F)
      → IsSchema s.state.db
      → IsSchema (handles codec sqs publisher cfg io m handle s).db
  handles-IsSchema io m handle s schema =
      Write-IsSchema
        (handle_message-Write codec io publisher cfg (delivery m handle) (world_of s.state)
          schema.order_keys)
        schema

  handles-Pending :
      (io : HandleIo) (m : SendMessage) (handle : String) (s : Mail F) (id : Uuid)
      → IsSchema s.state.db
      → Pending id (handles codec sqs publisher cfg io m handle s).db
      → Pending id s.state.db
  handles-Pending io m handle s id schema p =
      handle_message-Pending codec io publisher cfg (delivery m handle) (world_of s.state) id
        schema.order_keys p

  Receives-IsKept :
      {n : ℕ} {s t : Mail F}
      → Receives codec sqs publisher cfg n s t
      → IsKept codec s
      → IsKept codec t
  Receives-IsKept {n} {s} (deletes io handle xs ys l there _ deleted e) k =
      subst (IsKept codec) (sym e) (record {
        schema = handles-IsSchema io l.message handle s k.schema;
        tracked = λ id p.
            let before = handles-Pending io l.message handle s id k.schema p in
            elim (without codec xs ys l s id there (k.tracked id before)) [
              | inl about ↦
                  absurd
                    (deleted-not-Pending io l.message handle s id k.schema deleted about before p)
              | inr kept ↦ kept
            ];
      })
  Receives-IsKept {n} {s} (leaves io handle xs ys l there _ _ e) k =
      subst (IsKept codec) (sym e) (record {
        schema = handles-IsSchema io l.message handle s k.schema;
        tracked = λ id p. with_again codec xs ys l s id (
            without codec xs ys l s id there
              (k.tracked id (handles-Pending io l.message handle s id k.schema p)));
      })
  Receives-IsKept {n} {s} (redrives xs ys l there _ e) k = subst (IsKept codec) (sym e) (record {
    schema = k.schema;
    tracked =
        λ id p. with_dead codec xs ys l s id (without codec xs ys l s id there (k.tracked id p));
  })

  pub requests-IsSchema :
      (io : CreateIo) (body : CreateOrderRequest F) (s : Mail F)
      → IsSchema s.state.db
      → IsSchema (requests codec sqs publisher cfg io body s).db
  requests-IsSchema io body s schema =
      Write-IsSchema (create_order-Write codec io body (api_of sqs s.state)) schema

  module _ (faithful : IsFaithful codec) where
    -- The message of a request is about its order.
    sent-IsAbout :
        (io : CreateIo) (body : CreateOrderRequest F) (s : Mail F)
        → (requests codec sqs publisher cfg io body s).sent
          ≡ s.state.sent ++ message codec io body (api_of sqs s.state) ∷ []
        → IsAbout codec io.new_id (message codec io body (api_of sqs s.state))
    sent-IsAbout io body s more =
        elim (create_order_stored_first codec io body (api_of sqs s.state)) [
          | inl quiet ↦ absurd (
              append-ne s.state.sent (message codec io body (api_of sqs s.state))
                (sym more ∙ quiet))
          | inr (_, _, p, d) ↦
              let (event, parses, same_id, _) =
                faithful.order_round_trip (event_of (requested io body)) p d in
              (event, parses, same_id)
        ]

    Post-IsKept :
        {n : ℕ} {s t : Mail F}
        → Post codec sqs publisher cfg n s t
        → IsKept codec s
        → IsKept codec t
    Post-IsKept {n} {s} (sends io body more e) k = subst (IsKept codec) (sym e) (record {
      schema = requests-IsSchema io body s k.schema;
      tracked = λ id p. elim (create_order-Pending codec io body (api_of sqs s.state) id p) [
        | inl before ↦ elim (k.tracked id before) [
          | inl (l, there, about) ↦ inl (l, Memᴰ.tail there, about)
          | inr elsewhere ↦ inr elsewhere
        ]
        | inr this ↦ inl (
          letter (message codec io body (api_of sqs s.state)),
          Memᴰ.head refl,
          subst (λ i. IsAbout codec i (message codec io body (api_of sqs s.state))) (sym this)
              (sent-IsAbout io body s more),
        )
      ];
    })
    Post-IsKept {n} {s} (sends_nothing io body quiet e) k = subst (IsKept codec) (sym e) (record {
      schema = requests-IsSchema io body s k.schema;
      tracked = λ id p. elim (create_order-Pending codec io body (api_of sqs s.state) id p) [
        | inl before ↦ elim (k.tracked id before) [
          | inl there ↦ inl there
          | inr (inl dead) ↦ inr (inl dead)
          | inr (inr unsent) ↦ inr (inr (Memᴰ.tail unsent))
        ]
        | inr this ↦ inr (inr (Memᴰ.head this))
      ];
    })
    Post-IsKept {n} {s} (registers io body e) k = subst (IsKept codec) (sym e) (record {
      schema = Write-IsSchema (register_driver-Write io body (api_of sqs s.state)) k.schema;
      tracked = λ id (row, found, p). k.tracked id (
        row,
        ap (row_of order_key id) (sym (register_driver-frame io body (api_of sqs s.state)).1)
            ∙ found,
        p,
      );
    })
    Post-IsKept {n} {s} (reports io id body e) k = subst (IsKept codec) (sym e) (record {
      schema =
          Write-IsSchema (update_driver_location-Write io id body (api_of sqs s.state)) k.schema;
      tracked = λ id' (row, found, p). k.tracked id' (
        row,
        ap (row_of order_key id')
              (sym (update_driver_location-frame io id body (api_of sqs s.state)).1)
            ∙ found,
        p,
      );
    })
    Post-IsKept (receives r) k = Receives-IsKept r k
    Post-IsKept {n} {s} (repeats io m handle _ e) k = subst (IsKept codec) (sym e) (record {
      schema = handles-IsSchema io m handle s k.schema;
      tracked = λ id p. k.tracked id (handles-Pending io m handle s id k.schema p);
    })

    Posts-IsKept :
        {n : ℕ} {s t : Mail F}
        → IsKept codec s
        → Posts codec sqs publisher cfg n s t
        → IsKept codec t
    Posts-IsKept k nothing = k
    Posts-IsKept k (then_post r p) = Post-IsKept p (Posts-IsKept k r)

    -- From a database that keeps its constraints, where it is so for each pending order: in every
    -- history of the services and the queue, whatever fails, an order that is pending at the end has
    -- its message in the queue or in the dead-letter queue, or its request ended with no message
    -- sent. The codec is assumed to parse what it printed for points on Earth, to the same order.
    pub Posts-IsTracked :
        {n : ℕ} {s t : Mail F} (id : Uuid)
        → IsKept codec s
        → Posts codec sqs publisher cfg n s t
        → Pending id t.state.db
        → IsTracked codec t id
    Posts-IsTracked id k r p = (Posts-IsKept k r).tracked id p
