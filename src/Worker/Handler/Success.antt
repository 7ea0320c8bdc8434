-- ===== src/Worker/Handler/Success.antt =====
-- A handling whose calls all answer.
use velocity_dispatch.Prelude.{◌≡◌, refl, [], ◌∷◌, ◌++◌, String, some, ok, done}
use velocity_dispatch.Float.{Float}
use velocity_dispatch.Core.Events.{OrderCreated, DispatchAssigned}
use velocity_dispatch.Core.Codec.{Codec}
use velocity_dispatch.Store.{Database}
use velocity_dispatch.Worker.Matching.{assigned, already_handled, assign_order}
use velocity_dispatch.Worker.Eventbridge.{PutIo, DispatchEventPublisher, publish, entry_of}
use velocity_dispatch.Worker.Handler.Defs.{
  HandlerConfig, World, HandleIo, conclude, handle_event, handle_message, delete_message,
  delete_request, emit_match_outcome,
}

-- EventBridge takes the entry.
abbrev pub taken : PutIo
taken = record { put = done; failed_entry_count = 0 }

module _ {F : Type 0} ⦃f : Float F⦄ (codec : Codec F) (io : HandleIo)
    (publisher : DispatchEventPublisher) (cfg : HandlerConfig) where
  -- The world after the assignment, its event and the delete.
  abbrev pub announced_world :
      String → OrderCreated F → DispatchAssigned F → Database F → String → World F → World F
  announced_world handle event e db detail w =
      let logged = emit_match_outcome io cfg "assigned" event (record w { db = db }) in
      record logged {
        bus = w.bus ++ entry_of publisher detail ∷ [];
        deleted = w.deleted ++ delete_request cfg handle ∷ [];
      }

  pub handle_message_announces :
      (body handle detail : String) (event : OrderCreated F) (e : DispatchAssigned F)
      (db : Database F) (w : World F)
      → codec.order_from_str body ≡ some event
      → assign_order io.assign event.order_id event.pickup cfg.match_radius_km w.db
        ≡ (ok (assigned e), db)
      → codec.assigned_to_string e ≡ some detail
      → io.put ≡ taken
      → io.delete ≡ done
      → handle_message codec io publisher cfg
          (record { body = some body; receipt_handle = some handle })
          w
        ≡ (ok tt, announced_world handle event e db detail w)
  unfolding handle_message handle_event conclude publish delete_message
  handle_message_announces body handle detail event e db w parses won spelled put deleted =
      rw parses (rw won (rw (spelled, put, deleted) refl))

  -- The message of an order that is handled already is deleted.
  pub handle_message_repeated :
      (body handle : String) (event : OrderCreated F) (db : Database F) (w : World F)
      → codec.order_from_str body ≡ some event
      → assign_order io.assign event.order_id event.pickup cfg.match_radius_km w.db
        ≡ (ok already_handled, db)
      → io.delete ≡ done
      → (handle_message codec io publisher cfg
          (record { body = some body; receipt_handle = some handle })
          w).1.deleted
        ≡ w.deleted ++ delete_request cfg handle ∷ []
  unfolding handle_message handle_event conclude delete_message
  handle_message_repeated body handle event db w parses handled deleted =
      rw parses (rw handled (rw deleted refl))
