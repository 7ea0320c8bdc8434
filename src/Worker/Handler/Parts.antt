-- ===== src/Worker/Handler/Parts.antt =====
-- The calls of the handler by their cases.
use velocity_dispatch.Prelude.{
  ℕ, arith, ◌≡◌, refl, ◌⊎◌, inl, inr, List, [], ◌∷◌, ◌++◌, String, Option, none, some, ok, err,
  Outcome, done, failed, lost, attempt_cases, ltb, Option-cases, Bool-cases,
}
use velocity_dispatch.Core.Events.{DispatchAssigned}
use velocity_dispatch.Core.Codec.{Codec}
use velocity_dispatch.Worker.Matching.{WorkerError, aws, bad_json, rejected}
use velocity_dispatch.Worker.Eventbridge.{
  PutEventsRequestEntry, DispatchEventPublisher, PutIo, entry_of, publish, publish_detail,
  put_events,
}
use velocity_dispatch.Worker.Handler.Defs.{Message, HandlerConfig, World, delete_by, delete_message}

module _ {F : Type 0} where
  delete_by-frame :
      (io : Outcome) (cfg : HandlerConfig) (handle : Option String) (w : World F)
      → let t = (delete_by io cfg handle w).1 in
        (t.db ≡ w.db) × (t.bus ≡ w.bus) × (t.printed ≡ w.printed)
  delete_by-frame io cfg none w = (refl, refl, refl)
  delete_by-frame done cfg (some h) w = (refl, refl, refl)
  delete_by-frame failed cfg (some h) w = (refl, refl, refl)
  delete_by-frame lost cfg (some h) w = (refl, refl, refl)

  -- A delete touches the queue alone.
  pub delete_message-frame :
      (io : Outcome) (cfg : HandlerConfig) (message : Message) (w : World F)
      → let t = (delete_message io cfg message w).1 in
        (t.db ≡ w.db) × (t.bus ≡ w.bus) × (t.printed ≡ w.printed)
  unfolding delete_message
  delete_message-frame io cfg message w = delete_by-frame io cfg message.receipt_handle w

module _ {F : Type 0} (codec : Codec F) where
  -- The publish succeeded, with this entry.
  abbrev pub Published :
      DispatchEventPublisher
      → DispatchAssigned F
      → List PutEventsRequestEntry
      → List PutEventsRequestEntry
      → Type 0
  Published publisher e bus after =
      (detail : String) × (codec.assigned_to_string e ≡ some detail)
      × (after ≡ bus ++ entry_of publisher detail ∷ [])

  publish_detail_cases :
      (io : PutIo) (publisher : DispatchEventPublisher) (detail : String)
      (bus : List PutEventsRequestEntry)
      → (publish_detail codec io publisher (some detail) bus
          ≡ (ok tt, bus ++ entry_of publisher detail ∷ []))
        ⊎ ((x : WorkerError F) × (t : List PutEventsRequestEntry) × (publish_detail codec io
                publisher
                (some detail)
                bus
              ≡ (err x, t)))
  publish_detail_cases io publisher detail bus =
      elim (attempt_cases {E = WorkerError F} io.put aws bus (
        ok io.failed_entry_count,
        put_events io.failed_entry_count (entry_of publisher detail) bus,
      )) [
        | inr (t, e) ↦ inr (aws, t, rw e)
        | inl e ↦ rw e (elim (Bool-cases (ltb 0 io.failed_entry_count)) [
          | inl bad ↦ rw bad (inr (rejected io.failed_entry_count, bus, refl))
          | inr good ↦ rw good (inl refl)
        ])
      ]

  -- A publish puts its one entry on the bus, or ends with an error.
  pub publish_cases :
      (io : PutIo) (publisher : DispatchEventPublisher) (e : DispatchAssigned F)
      (bus : List PutEventsRequestEntry)
      → (((publish codec io publisher e bus).0 ≡ ok tt)
          × Published publisher e bus (publish codec io publisher e bus).1)
        ⊎ ((x : WorkerError F) × ((publish codec io publisher e bus).0 ≡ err x))
  unfolding publish
  publish_cases io publisher e bus = elim (Option-cases (codec.assigned_to_string e)) [
    | inl no_text ↦ rw no_text (inr (bad_json, refl))
    | inr (detail, there) ↦ rw there (elim (publish_detail_cases io publisher detail bus) [
      | inl h ↦ rw h (inl (refl, (detail, refl, refl)))
      | inr (x, t, h) ↦ rw h (inr (x, refl))
    ])
  ]

  put_events_cases :
      (n : ℕ) (entry : PutEventsRequestEntry) (bus : List PutEventsRequestEntry)
      → (put_events n entry bus ≡ bus) ⊎ (put_events n entry bus ≡ bus ++ entry ∷ [])
  put_events_cases n entry bus = ground arith

  publish_detail_bus :
      (put : Outcome) (n : ℕ) (publisher : DispatchEventPublisher) (detail : String)
      (bus : List PutEventsRequestEntry)
      → let io : PutIo = record { put = put; failed_entry_count = n } in
        let after = (publish_detail codec io publisher (some detail) bus).1 in
        (after ≡ bus) ⊎ (after ≡ bus ++ entry_of publisher detail ∷ [])
  publish_detail_bus done n publisher detail bus =
      put_events_cases n (entry_of publisher detail) bus
  publish_detail_bus failed n publisher detail bus = inl refl
  publish_detail_bus lost n publisher detail bus =
      put_events_cases n (entry_of publisher detail) bus

  -- A publish leaves the bus, or adds the entry of the event, also where it ends with an error.
  pub publish_bus :
      (io : PutIo) (publisher : DispatchEventPublisher) (e : DispatchAssigned F)
      (bus : List PutEventsRequestEntry)
      → let after = (publish codec io publisher e bus).1 in
        (after ≡ bus) ⊎ Published publisher e bus after
  unfolding publish
  publish_bus io publisher e bus = elim (Option-cases (codec.assigned_to_string e)) [
    | inl no_text ↦ rw no_text (inl refl)
    | inr (detail, there) ↦
        rw there (elim (publish_detail_bus io.put io.failed_entry_count publisher detail bus) [
          | inl same ↦ inl same
          | inr more ↦ inr (detail, refl, more)
        ])
  ]
