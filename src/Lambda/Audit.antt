-- ===== src/Lambda/Audit.antt =====
-- The audit trail and the notifications under repeated deliveries of one event.
use text.Mathlib.TextPositions.{eq_refl}
use mathlib.Core.List.{append_assoc}
use velocity_dispatch.Prelude.{
  ◌≡◌, refl, sym, ap, ◌∙◌, ◌⊎◌, inl, inr, Bool, true, List, [], ◌∷◌, ◌++◌, String, Option, none,
  some, Result, ok, Outcome, done, failed, lost, Bool-cases, ==_refl, find?, ◌>>◌, return,
}
use velocity_dispatch.Core.Events.{DispatchAssigned}
use velocity_dispatch.Core.Json.{Json}
use velocity_dispatch.Lambda.Defs.{
  AuditKey, PutObject, LambdaError, Sinks, LambdaIo, same_object, audit_key, put_object,
  publish_request, send_assignment_notification, audit_object, write_audit_record, processed,
  handle_event,
}

same_object_self : (b : String) (k : AuditKey) → same_object b k b k ≡ true
same_object_self b k = rw (eq_refl b) (rw (==_refl k.order_id) (rw (==_refl k.assignment_id)))

module _ {F : Type 0} where
  abbrev pub is_at : String → AuditKey → PutObject F → Bool
  is_at bucket key o = same_object o.bucket o.key bucket key

  -- The object under a bucket and a key.
  abbrev pub get_object : String → AuditKey → List (PutObject F) → Option (PutObject F)
  get_object bucket key objects = find? (is_at bucket key) objects

  pub get_object-put_object :
      (o : PutObject F) (l : List (PutObject F))
      → get_object o.bucket o.key (put_object o l) ≡ some o
  get_object-put_object o [] = rw (same_object_self o.bucket o.key)
  get_object-put_object o (p ∷ ps) = elim (Bool-cases (same_object p.bucket p.key o.bucket o.key)) [
    | inl e ↦ rw e (rw (same_object_self o.bucket o.key))
    | inr e ↦ rw e (rw e (get_object-put_object o ps))
  ]

  put_object_twice :
      (o : PutObject F) (l : List (PutObject F)) → put_object o (put_object o l) ≡ put_object o l
  put_object_twice o [] = rw (same_object_self o.bucket o.key)
  put_object_twice o (p ∷ ps) = elim (Bool-cases (same_object p.bucket p.key o.bucket o.key)) [
    | inl e ↦ rw e (rw (same_object_self o.bucket o.key))
    | inr e ↦ rw e (rw e (ap (λ l. p ∷ l) (put_object_twice o ps)))
  ]

  notified-objects :
      (io : Outcome) (topic : Option String) (e : DispatchAssigned F) (s : Sinks F)
      → (send_assignment_notification io topic e s).1.objects ≡ s.objects
  unfolding send_assignment_notification
  notified-objects io none e s = refl
  notified-objects done (some t) e s = refl
  notified-objects failed (some t) e s = refl
  notified-objects lost (some t) e s = refl

  -- The second half of `handle_event`, after the notification.
  abbrev answered :
      Outcome → String → DispatchAssigned F → Sinks F → Result LambdaError (Json F) × Sinks F
  answered o bucket e = do write_audit_record o (some bucket) e; return (processed e)

  answered_ok :
      (o : Outcome) (bucket : String) (e : DispatchAssigned F) (s : Sinks F) (j : Json F)
      → (answered o bucket e s).0 ≡ ok j
      → (answered o bucket e s).1.objects ≡ put_object (audit_object bucket e) s.objects
  unfolding write_audit_record
  answered_ok done bucket e s j h = refl
  answered_ok failed bucket e s j h = cc
  answered_ok lost bucket e s j h = cc

  answered_objects :
      (o : Outcome) (bucket : String) (e : DispatchAssigned F) (s : Sinks F)
      → let t = (answered o bucket e s).1 in
        (t.objects ≡ s.objects) ⊎ (t.objects ≡ put_object (audit_object bucket e) s.objects)
  unfolding write_audit_record
  answered_objects done bucket e s = inr refl
  answered_objects failed bucket e s = inl refl
  answered_objects lost bucket e s = inr refl

  handle_event-objects :
      (p o : Outcome) (bucket : String) (topic : Option String) (e : DispatchAssigned F)
      (s : Sinks F)
      → let t = (handle_event (record { publish = p; put = o }) (some bucket) topic e s).1 in
        (t.objects ≡ s.objects) ⊎ (t.objects ≡ put_object (audit_object bucket e) s.objects)
  unfolding handle_event send_assignment_notification
  handle_event-objects p o bucket none e s = answered_objects o bucket e s
  handle_event-objects done o bucket (some t) e s =
      answered_objects o bucket e (record s { notified = s.notified ++ publish_request t e ∷ [] })
  handle_event-objects failed o bucket (some t) e s = inl refl
  handle_event-objects lost o bucket (some t) e s = inl refl

  handle_event-objects_ok :
      (p o : Outcome) (bucket : String) (topic : Option String) (e : DispatchAssigned F)
      (s : Sinks F) (j : Json F)
      → (handle_event (record { publish = p; put = o }) (some bucket) topic e s).0 ≡ ok j
      → (handle_event (record { publish = p; put = o }) (some bucket) topic e s).1.objects
        ≡ put_object (audit_object bucket e) s.objects
  unfolding handle_event send_assignment_notification
  handle_event-objects_ok p o bucket none e s j h = answered_ok o bucket e s j h
  handle_event-objects_ok done o bucket (some t) e s j h =
      answered_ok o bucket e (record s { notified = s.notified ++ publish_request t e ∷ [] }) j h
  handle_event-objects_ok failed o bucket (some t) e s j h = cc
  handle_event-objects_ok lost o bucket (some t) e s j h = cc

  -- With an audit bucket: a handling that answers has put the event under its key, and another
  -- handling of the same event after it, however its calls end, leaves the objects as they are.
  pub recorded_once :
      (io again : LambdaIo) (bucket : String) (topic : Option String) (e : DispatchAssigned F)
      (s : Sinks F) (j : Json F)
      → (handle_event io (some bucket) topic e s).0 ≡ ok j
      → let t = (handle_event io (some bucket) topic e s).1 in
        (get_object bucket (audit_key e) t.objects ≡ some (audit_object bucket e))
        × ((handle_event again (some bucket) topic e t).1.objects ≡ t.objects)
  recorded_once io again bucket topic e s j h =
      let t = (handle_event io (some bucket) topic e s).1 in
      let put = handle_event-objects_ok io.publish io.put bucket topic e s j h in
      (
        ap (get_object bucket (audit_key e)) put
            ∙ get_object-put_object (audit_object bucket e) s.objects,
        elim (handle_event-objects again.publish again.put bucket topic e t) [
          | inl same ↦ same
          | inr twice ↦
              twice
              ∙ ap (put_object (audit_object bucket e)) put
              ∙ put_object_twice (audit_object bucket e) s.objects
              ∙ sym put
        ],
      )

  -- With a bucket and a topic, after two handlings of an event whose calls are all answered: the
  -- second one has answered `processed` and left the objects as they were, and two notifications
  -- have been sent.
  pub redelivery_notifies :
      (bucket topic_arn : String) (e : DispatchAssigned F) (s : Sinks F)
      → let first =
          handle_event (record { publish = done; put = done }) (some bucket) (some topic_arn) e s in
        let second =
          handle_event
            (record { publish = done; put = done })
            (some bucket)
            (some topic_arn)
            e
            first.1 in
        (second.0 ≡ ok (processed e))
        × (second.1.objects ≡ first.1.objects)
        × (second.1.notified
            ≡ s.notified ++ publish_request topic_arn e ∷ publish_request topic_arn e ∷ [])
  unfolding handle_event send_assignment_notification write_audit_record
  redelivery_notifies bucket topic_arn e s = (
    refl,
    put_object_twice (audit_object bucket e) s.objects,
    append_assoc s.notified (publish_request topic_arn e ∷ []) (publish_request topic_arn e ∷ []),
  )
