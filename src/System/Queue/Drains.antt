-- ===== src/System/Queue/Drains.antt =====
-- Messages leave the queue where the calls of their handlings answer.
use velocity_dispatch.Prelude.{
  ℕ, suc, ◌+◌, ◌≡◌, sym, ap, ◌∙◌, ◌⊎◌, inl, inr, false, true, List, [], ◌∷◌, ◌++◌, String, some, ok,
  done, count, arith, append-ne,
}
use velocity_dispatch.Float.{Float}
use velocity_dispatch.Core.Model.{Driver}
use velocity_dispatch.Core.Events.{OrderCreated}
use velocity_dispatch.Core.Geo.{nearest_driver}
use velocity_dispatch.Core.Codec.{Codec}
use velocity_dispatch.Store.{Database, IsSchema, has}
use velocity_dispatch.Api.Sqs.{SendMessage, OrderEventPublisher}
use velocity_dispatch.Worker.Db.{assignment_key}
use velocity_dispatch.Worker.Matching.{
  AllDone, Pending, candidates, complete, event, assign_order_assigns, assign_order_handled,
}
use velocity_dispatch.Worker.Eventbridge.{DispatchEventPublisher}
use velocity_dispatch.Worker.Handler.{
  HandlerConfig, HandleIo, World, taken, handle_message, handle_message_announces,
  handle_message_repeated, delete_request,
}
use velocity_dispatch.System.Run.{world_of, api_of, delivery}
use velocity_dispatch.System.Schema.{Write-IsSchema}
use velocity_dispatch.System.Handlers.{register_driver-Write, update_driver_location-Write}
use velocity_dispatch.System.Queue.{
  Letter, Mail, Receives, deletes, leaves, redrives, Post, sends, sends_nothing, registers, reports,
  receives, repeats, Posts, nothing, then_post,
}
use velocity_dispatch.System.Queue.Kept.{handles-IsSchema, requests-IsSchema}

abbrev pub size : List Letter → ℕ
size ls = count (λ _. true) ls

size-mid : (xs ys : List Letter) (l : Letter) → size (xs ++ l ∷ ys) ≡ suc (size (xs ++ ys))
size-mid [] ys l = omega arith
size-mid (x ∷ xs) ys l = omega (arith, size-mid xs ys l)

module _ {F : Type 0} ⦃f : Float F⦄ (codec : Codec F) (sqs : OrderEventPublisher)
    (publisher : DispatchEventPublisher) (cfg : HandlerConfig) where
  -- The calls of the handling answer, the message is that of an order, and the order is settled
  -- already, or a driver is found for it and the event has a text.
  pub record IsServed (io : HandleIo) (m : SendMessage) (db : Database F) : Type 0 where
    pub assign : AllDone io.assign
    pub put : io.put ≡ taken
    pub delete : io.delete ≡ done
    pub order : OrderCreated F
    pub parses : codec.order_from_str m.message_body ≡ some order
    pub outcome :
        (¬ Pending order.order_id db)
        ⊎ (Pending order.order_id db
            × (has assignment_key io.assign.new_id db.assignments ≡ false)
            × ((x : Driver F × F) × (detail : String) × (nearest_driver order.pickup
                    (candidates io.assign db)
                    cfg.match_radius_km
                  ≡ ok x)
                × (codec.assigned_to_string
                      (event io.assign order.order_id x.0.id x.1 io.assign.new_id)
                    ≡ some detail)))

  pub served_deletes :
      (io : HandleIo) (m : SendMessage) (handle : String) (w : World F)
      → IsSchema w.db
      → IsServed io m w.db
      → (handle_message codec io publisher cfg (delivery m handle) w).1.deleted
        ≡ w.deleted ++ delete_request cfg handle ∷ []
  served_deletes io m handle w schema served = elim served.outcome [
    | inl settled ↦
        handle_message_repeated codec io publisher cfg m.message_body handle served.order w.db w
          served.parses
          (assign_order_handled io.assign served.order.order_id served.order.pickup
            cfg.match_radius_km w.db served.assign schema.order_keys settled)
          served.delete
    | inr (pending, new, (x, detail, near, spelled)) ↦
        ap (λ r. r.1.deleted)
          (handle_message_announces codec io publisher cfg m.message_body handle detail served.order
            (event io.assign served.order.order_id x.0.id x.1 io.assign.new_id)
            (complete io.assign served.order.order_id x.0.id x.1 w.db) w served.parses
            (assign_order_assigns io.assign served.order.order_id served.order.pickup
              cfg.match_radius_km w.db x served.assign schema.order_keys pending new near)
            spelled served.put served.delete)
  ]

  -- Each reception by a worker is served; SQS may also give a message up.
  abbrev IsServedReception :
      {n : ℕ} {s t : Mail F} → Receives codec sqs publisher cfg n s t → Type 0
  IsServedReception {s = s} (deletes io handle xs ys l _ _ _ e) = IsServed io l.message s.state.db
  IsServedReception {s = s} (leaves io handle xs ys l _ _ _ e) = IsServed io l.message s.state.db
  IsServedReception (redrives xs ys l _ _ e) = Unit

  abbrev IsServedPost : {n : ℕ} {s t : Mail F} → Post codec sqs publisher cfg n s t → Type 0
  IsServedPost (sends io body _ e) = Unit
  IsServedPost (sends_nothing io body _ e) = Unit
  IsServedPost (registers io body e) = Unit
  IsServedPost (reports io id body e) = Unit
  IsServedPost (receives x) = IsServedReception x
  IsServedPost (repeats io m handle _ e) = Unit

  abbrev pub IsServedCourse : {n : ℕ} {s t : Mail F} → Posts codec sqs publisher cfg n s t → Type 0
  IsServedCourse nothing = Unit
  IsServedCourse (then_post r p) = IsServedCourse r × IsServedPost p

  -- How often a history takes a message from the queue, and how often it sends one.
  abbrev pub receptions : {n : ℕ} {s t : Mail F} → Posts codec sqs publisher cfg n s t → ℕ
  receptions nothing = 0
  receptions (then_post r (receives _)) = suc (receptions r)
  receptions (then_post r _) = receptions r

  abbrev pub messages_sent : {n : ℕ} {s t : Mail F} → Posts codec sqs publisher cfg n s t → ℕ
  messages_sent nothing = 0
  messages_sent (then_post r (sends _ _ _ _)) = suc (messages_sent r)
  messages_sent (then_post r _) = messages_sent r

  -- A served reception takes the message out of the queue.
  Receives-size :
      {n : ℕ} {s t : Mail F}
      → (x : Receives codec sqs publisher cfg n s t) → IsSchema s.state.db
      → IsServedReception x
      → suc (size t.queue) ≡ size s.queue
  Receives-size (deletes io handle xs ys l there _ _ e) schema served =
      rw (e, there) (sym (size-mid xs ys l))
  Receives-size {s = s} (leaves io handle xs ys l there _ kept e) schema served = absurd (
      append-ne s.state.deleted (delete_request cfg handle)
        (sym (served_deletes io l.message handle (world_of s.state) schema served) ∙ kept))
  Receives-size (redrives xs ys l there _ e) schema served = rw (e, there) (sym (size-mid xs ys l))

  Receives-IsSchema :
      {n : ℕ} {s t : Mail F}
      → Receives codec sqs publisher cfg n s t
      → IsSchema s.state.db
      → IsSchema t.state.db
  Receives-IsSchema {s = s} (deletes io handle xs ys l _ _ _ e) schema =
      rw e (handles-IsSchema codec sqs publisher cfg io l.message handle s schema)
  Receives-IsSchema {s = s} (leaves io handle xs ys l _ _ _ e) schema =
      rw e (handles-IsSchema codec sqs publisher cfg io l.message handle s schema)
  Receives-IsSchema (redrives xs ys l _ _ e) schema = rw e schema

  Post-IsSchema :
      {n : ℕ} {s t : Mail F}
      → Post codec sqs publisher cfg n s t
      → IsSchema s.state.db
      → IsSchema t.state.db
  Post-IsSchema {s = s} (sends io body _ e) schema =
      rw e (requests-IsSchema codec sqs publisher cfg io body s schema)
  Post-IsSchema {s = s} (sends_nothing io body _ e) schema =
      rw e (requests-IsSchema codec sqs publisher cfg io body s schema)
  Post-IsSchema {s = s} (registers io body e) schema =
      rw e (Write-IsSchema (register_driver-Write io body (api_of sqs s.state)) schema)
  Post-IsSchema {s = s} (reports io id body e) schema =
      rw e (Write-IsSchema (update_driver_location-Write io id body (api_of sqs s.state)) schema)
  Post-IsSchema (receives x) schema = Receives-IsSchema x schema
  Post-IsSchema {s = s} (repeats io m handle _ e) schema =
      rw e (handles-IsSchema codec sqs publisher cfg io m handle s schema)

  Posts-IsSchema :
      {n : ℕ} {s t : Mail F}
      → Posts codec sqs publisher cfg n s t
      → IsSchema s.state.db
      → IsSchema t.state.db
  Posts-IsSchema nothing schema = schema
  Posts-IsSchema (then_post r p) schema = Post-IsSchema p (Posts-IsSchema r schema)

  -- From a database that keeps its constraints, where each message that a worker takes from the
  -- queue is that of an order, its calls answer, and the order is settled already, or is pending
  -- with a driver found for it, a fresh id for the assignment and a text for the event: each such
  -- reception takes its message out of the queue. So the number of messages that were received or
  -- given up, with those that are left, is the number of those that were there and those that were
  -- sent, whatever the policy on retries is. Deliveries of messages that the queue no longer holds
  -- are not counted.
  pub Posts-drains :
      {n : ℕ} {s t : Mail F} (r : Posts codec sqs publisher cfg n s t)
      → IsSchema s.state.db
      → IsServedCourse r
      → receptions r + size t.queue ≡ size s.queue + messages_sent r
  Posts-drains nothing schema served = omega arith
  Posts-drains (then_post r (sends io body _ e)) schema served =
      rw e (omega (arith, Posts-drains r schema served.0))
  Posts-drains (then_post r (sends_nothing io body _ e)) schema served =
      rw e (Posts-drains r schema served.0)
  Posts-drains (then_post r (registers io body e)) schema served =
      rw e (Posts-drains r schema served.0)
  Posts-drains (then_post r (reports io id body e)) schema served =
      rw e (Posts-drains r schema served.0)
  Posts-drains (then_post r (receives x)) schema served =
      omega
        (arith, Posts-drains r schema served.0, Receives-size x (Posts-IsSchema r schema) served.1)
  Posts-drains (then_post r (repeats io m handle _ e)) schema served =
      rw e (Posts-drains r schema served.0)
