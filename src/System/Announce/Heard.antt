-- ===== src/System/Announce/Heard.antt =====
-- What customers are told, and what the audit trail keeps.
use mathlib.Core.Path.{subst}
use velocity_dispatch.Prelude.{
  ◌≡◌, refl, sym, ◌∙◌, ap, inl, inr, String, some, count_one, ==_iff, All, All-mono, All-append,
  All-at, Memᴰ,
}
use velocity_dispatch.Float.{Float}
use velocity_dispatch.Core.Events.{DispatchAssigned}
use velocity_dispatch.Core.Codec.{Codec, IsFaithful}
use velocity_dispatch.Store.{Database, AssignmentRow}
use velocity_dispatch.Api.Sqs.{OrderEventPublisher}
use velocity_dispatch.Worker.Eventbridge.{PutEventsRequestEntry, DispatchEventPublisher}
use velocity_dispatch.Worker.Handler.{HandlerConfig}
use velocity_dispatch.Lambda.Defs.{
  LambdaIo, Sinks, Publish, PutObject, publish_request, audit_object,
}
use velocity_dispatch.Lambda.Effects.{Adds, All-put_object, handle_event-Adds}
use velocity_dispatch.Start.Config.{Env}
use velocity_dispatch.Start.Main.{lambda_handler}
use velocity_dispatch.System.Writes.{Write, of_order}
use velocity_dispatch.System.Run.{here}
use velocity_dispatch.System.Sound.{IsSound, Step-Write, Reach-assigned_once, Step-IsSound}
use velocity_dispatch.System.Announce.{
  EventDecoder, Decodes, Feed, Tick, serves, announces, Ticks, unmoved, moved,
}
use velocity_dispatch.System.Announce.Stored.{IsStored, Write-IsStored}
use velocity_dispatch.System.Announce.Bus.{IsAnnounced, IsBacked, Step-IsAnnounced}

module _ {F : Type 0} where
  -- The notification of a stored assignment.
  abbrev pub IsTrueNotice : Database F → Publish F → Type 0
  IsTrueNotice db p =
      (topic_arn : String) × (d : DispatchAssigned F) × (p ≡ publish_request topic_arn d)
      × IsStored db d

  -- The record of a stored assignment.
  abbrev pub IsTrueRecord : Database F → PutObject F → Type 0
  IsTrueRecord db o =
      (bucket : String) × (d : DispatchAssigned F) × (o ≡ audit_object bucket d) × IsStored db d

  pub record IsHeard (db : Database F) (s : Sinks F) : Type 0 where
    pub notices : All (IsTrueNotice db) s.notified
    pub records : All (IsTrueRecord db) s.objects

  IsHeard-Write : {db t : Database F} {s : Sinks F} → Write db t → IsHeard db s → IsHeard t s
  IsHeard-Write {s = s} w h = record {
    notices =
        All-mono _ _ s.notified (λ p (topic, d, e, stored). (topic, d, e, Write-IsStored w stored))
          h.notices;
    records =
        All-mono _ _ s.objects (λ p (bucket, d, e, stored). (bucket, d, e, Write-IsStored w stored))
          h.records;
  }

  Adds-IsHeard :
      {db : Database F} {d : DispatchAssigned F} {s t : Sinks F}
      → Adds d s t
      → IsStored db d
      → IsHeard db s
      → IsHeard db t
  Adds-IsHeard {db} {d} {s} (notified, objects) stored h = record {
    notices = elim notified [
      | inl same ↦ subst (All (IsTrueNotice db)) (sym same) h.notices
      | inr (topic, more) ↦
          subst (All (IsTrueNotice db)) (sym more)
            (All-append (IsTrueNotice db) s.notified _ h.notices ((topic, d, refl, stored), tt))
    ];
    records = elim objects [
      | inl same ↦ subst (All (IsTrueRecord db)) (sym same) h.records
      | inr (bucket, more) ↦ subst (All (IsTrueRecord db)) (sym more) (
          All-put_object (IsTrueRecord db) (audit_object bucket d) s.objects
            (bucket, d, refl, stored) h.records)
    ];
  }

module _ {F : Type 0} ⦃f : Float F⦄ (codec : Codec F) (sqs : OrderEventPublisher)
    (publisher : DispatchEventPublisher) (cfg : HandlerConfig) (decoder : EventDecoder F)
    (decodes : Decodes codec decoder) (faithful : IsFaithful codec) where
  pub record IsTruthful (s : Feed F) : Type 0 where
    pub sound : IsSound codec sqs publisher cfg s.state
    pub announced : IsAnnounced decoder s.state
    pub heard : IsHeard s.state.db s.sinks

  lambda_handler-Adds :
      (env : Env) (io : LambdaIo) (d : DispatchAssigned F) (s : Sinks F)
      → Adds d s (lambda_handler env io d s).1
  unfolding lambda_handler
  lambda_handler-Adds env io d s =
      handle_event-Adds io (env "AUDIT_BUCKET") (env "NOTIFY_TOPIC_ARN") d s

  decoded_stored :
      (db : Database F) (d : DispatchAssigned F) (entry : PutEventsRequestEntry)
      → decoder.assigned_from_str entry.detail ≡ some d
      → IsBacked decoder db entry
      → IsStored db d
  decoded_stored db d entry decoded (_, d', decoded', stored) =
      let same : d' ≡ d = cc in subst (IsStored db) same stored

  Tick-IsTruthful :
      {s t : Feed F} → Tick codec sqs publisher cfg decoder s t → IsTruthful s → IsTruthful t
  Tick-IsTruthful {s} (serves u st e) i = subst IsTruthful (sym e) (record {
    sound = Step-IsSound codec sqs publisher cfg faithful st i.sound;
    announced =
        Step-IsAnnounced codec sqs publisher cfg decoder decodes st i.sound.schema i.announced;
    heard = IsHeard-Write (Step-Write codec sqs publisher cfg st i.sound.schema) i.heard;
  })
  Tick-IsTruthful {s} (announces env io entry d there matches decoded e) i =
      subst IsTruthful (sym e) (record {
        sound = i.sound;
        announced = i.announced;
        heard =
            Adds-IsHeard (lambda_handler-Adds env io d s.sinks)
              (decoded_stored s.state.db d entry decoded
                (All-at (IsBacked decoder s.state.db) s.state.bus there i.announced.backed))
              i.heard;
      })

  Ticks-IsTruthful :
      {s t : Feed F} → IsTruthful s → Ticks codec sqs publisher cfg decoder s t → IsTruthful t
  Ticks-IsTruthful i unmoved = i
  Ticks-IsTruthful i (moved r k) = Tick-IsTruthful k (Ticks-IsTruthful i r)

  -- From a sound state in which the events on the bus, the notifications and the audit records
  -- tell of stored assignments: in every history of the services, the bus and the lambda, whatever
  -- fails and however often an event is delivered, each notification and each audit record is that
  -- of an event that has the ids of an assignment in the database. The codec is assumed to parse
  -- what it printed for points on Earth, to the same order, and the decoder to find the ids that
  -- the codec printed.
  pub Ticks-IsHeard :
      {s t : Feed F}
      → IsTruthful s
      → Ticks codec sqs publisher cfg decoder s t
      → IsHeard t.state.db t.sinks
  Ticks-IsHeard i r = (Ticks-IsTruthful i r).heard

  -- From a sound state in which the events on the bus, the notifications and the audit records
  -- tell of stored assignments: in every history of the services, the bus and the lambda, two
  -- audit records of one order have the same key, so that a bucket keeps at most one. The codec is
  -- assumed to parse what it printed for points on Earth, to the same order, and the decoder to
  -- find the ids that the codec printed.
  pub Ticks-one_record :
      {s t : Feed F} (o p : PutObject F)
      → IsTruthful s
      → Ticks codec sqs publisher cfg decoder s t
      → Memᴰ o t.sinks.objects
      → Memᴰ p t.sinks.objects
      → o.key.order_id ≡ p.key.order_id
      → o.key ≡ p.key
  Ticks-one_record {t = t} o p i r mo mp same_order =
      let after = Ticks-IsTruthful i r in
      let (_, d, is_d, ds) =
        All-at (IsTrueRecord t.state.db) t.sinks.objects mo after.heard.records in
      let (_, e, is_e, es) =
        All-at (IsTrueRecord t.state.db) t.sinks.objects mp after.heard.records in
      let same : d.order_id ≡ e.order_id =
        sym (ap (λ (x : PutObject F). x.key.order_id) is_d)
        ∙ same_order
        ∙ ap (λ (x : PutObject F). x.key.order_id) is_e in
      let one_row =
        count_one (of_order e.order_id) ds.row es.row t.state.db.assignments
          (Reach-assigned_once codec sqs publisher cfg faithful e.order_id after.sound here)
          ((==_iff _ _).1 (ds.order_id ∙ same)) ((==_iff _ _).1 es.order_id) ds.there es.there in
      let same_id : d.assignment_id ≡ e.assignment_id =
        sym ds.id ∙ ap (λ (r : AssignmentRow F). r.id) one_row ∙ es.id in
      ap (λ (x : PutObject F). x.key) is_d
      ∙ (λ j. record { order_id = same j; assignment_id = same_id j })
      ∙ sym (ap (λ (x : PutObject F). x.key) is_e)
