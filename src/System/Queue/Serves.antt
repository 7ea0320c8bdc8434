-- ===== src/System/Queue/Serves.antt =====
-- A message that waits in the queue, and a worker whose calls all answer.
use velocity_dispatch.Prelude.{
  ℕ, ◌≡◌, ◌<◌, refl, sym, ap, ◌∙◌, false, List, [], ◌∷◌, ◌++◌, String, some, ok, done, append-ne,
}
use velocity_dispatch.Float.{Float}
use velocity_dispatch.Core.Model.{Driver}
use velocity_dispatch.Core.Events.{OrderCreated}
use velocity_dispatch.Core.Geo.{nearest_driver}
use velocity_dispatch.Core.Codec.{Codec}
use velocity_dispatch.Store.{IsSchema, has}
use velocity_dispatch.Api.Sqs.{OrderEventPublisher}
use velocity_dispatch.Worker.Db.{assignment_key}
use velocity_dispatch.Worker.Matching.{
  AllDone, Pending, candidates, complete, event, assign_order_assigns,
}
use velocity_dispatch.Worker.Eventbridge.{DispatchEventPublisher, entry_of}
use velocity_dispatch.Worker.Handler.{
  HandlerConfig, HandleIo, taken, announced_world, handle_message_announces, delete_request,
}
use velocity_dispatch.System.Run.{State, world_of, after_worker}
use velocity_dispatch.System.Writes.{IsBalanced}
use velocity_dispatch.System.Lifecycle.{board, settled}
use velocity_dispatch.System.Lifecycle.Simulates.{complete-board}
use velocity_dispatch.System.Queue.{Letter, Mail, handles, Receives, deletes}

module _ {F : Type 0} ⦃f : Float F⦄ (codec : Codec F) (sqs : OrderEventPublisher)
    (publisher : DispatchEventPublisher) (cfg : HandlerConfig) where
  -- A pending order whose message waits in the queue, received less often than the policy allows: the
  -- next reception, if all its calls answer, its new id is fresh and `nearest_driver` finds a driver
  -- among the available ones that are not locked, settles the order with that driver, takes the
  -- message out of the queue, and puts its event on the bus. The tables are assumed to keep their
  -- constraints and to be balanced, and the codec to parse the message and to print the event.
  pub waiting_order_settles :
      (max_receive_count : ℕ) (s : Mail F) (io : HandleIo) (handle detail : String)
      (xs ys : List Letter) (l : Letter) (d : OrderCreated F) (x : Driver F × F)
      → IsSchema s.state.db
      → IsBalanced s.state.db
      → s.queue ≡ xs ++ l ∷ ys
      → l.received < max_receive_count
      → codec.order_from_str l.message.message_body ≡ some d
      → Pending d.order_id s.state.db
      → AllDone io.assign
      → io.put ≡ taken
      → io.delete ≡ done
      → has assignment_key io.assign.new_id s.state.db.assignments ≡ false
      → nearest_driver d.pickup (candidates io.assign s.state.db) cfg.match_radius_km ≡ ok x
      → codec.assigned_to_string (event io.assign d.order_id x.0.id x.1 io.assign.new_id)
        ≡ some detail
      → (t : Mail F) × Receives codec sqs publisher cfg max_receive_count s t
        × (board t.state.db d.order_id ≡ settled (some x.0.id))
        × (t.queue ≡ xs ++ ys)
        × (t.state.bus ≡ s.state.bus ++ entry_of publisher detail ∷ [])
  waiting_order_settles most s io handle detail xs ys l d x schema balanced waits few parses pending
        all put deleted new near spelled =
      let e = event io.assign d.order_id x.0.id x.1 io.assign.new_id in
      let db = complete io.assign d.order_id x.0.id x.1 s.state.db in
      let w = announced_world codec io publisher cfg handle d e db detail (world_of s.state) in
      let after : State F = after_worker s.state w in
      let is_after : handles codec sqs publisher cfg io l.message handle s ≡ after =
        ap (λ r. after_worker s.state r.1)
          (handle_message_announces codec io publisher cfg l.message.message_body handle detail d e
            db (world_of s.state) parses
            (assign_order_assigns io.assign d.order_id d.pickup cfg.match_radius_km s.state.db x all
              schema.order_keys pending new near)
            spelled put deleted) in
      (
        record s { state = after; queue = xs ++ ys },
        deletes io handle xs ys l waits few
            (λ h.
              append-ne s.state.deleted (delete_request cfg handle)
                (sym (ap (λ (u : State F). u.deleted) is_after) ∙ h))
            (ap (λ (u : State F). record s { state = u; queue = xs ++ ys }) (sym is_after)),
        complete-board io.assign d.order_id x.0.id x.1 s.state.db pending balanced,
        refl,
        refl,
      )
