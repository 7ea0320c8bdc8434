-- ===== src/Lambda/Effects.antt =====
-- What a handling of an event adds, whatever the environment and the ends of the calls.
use velocity_dispatch.Prelude.{
  ◌≡◌, refl, ◌⊎◌, inl, inr, List, [], ◌∷◌, ◌++◌, String, Option, none, some, Outcome, done, failed,
  lost, All, Bool-cases,
}
use velocity_dispatch.Core.Events.{DispatchAssigned}
use velocity_dispatch.Lambda.Defs.{
  PutObject, Sinks, LambdaIo, same_object, put_object, publish_request,
  send_assignment_notification, audit_object, write_audit_record, handle_event,
}

module _ {F : Type 0} where
  pub All-put_object :
      (P : PutObject F → Type 0) (o : PutObject F) (l : List (PutObject F))
      → P o
      → All P l
      → All P (put_object o l)
  All-put_object P o [] h hs = (h, tt)
  All-put_object P o (p ∷ ps) h (k, ks) =
      elim (Bool-cases (same_object p.bucket p.key o.bucket o.key)) [
        | inl same ↦ rw same (h, ks)
        | inr other ↦ rw other (k, All-put_object P o ps h ks)
      ]

  -- Nothing, or one notification; nothing, or one object.
  abbrev pub Adds : DispatchAssigned F → Sinks F → Sinks F → Type 0
  Adds e s t =
      ((t.notified ≡ s.notified)
        ⊎ ((topic_arn : String) × (t.notified ≡ s.notified ++ publish_request topic_arn e ∷ [])))
      × ((t.objects ≡ s.objects)
          ⊎ ((bucket : String) × (t.objects ≡ put_object (audit_object bucket e) s.objects)))

  handle_ends :
      (p o : Outcome) (bucket topic : Option String) (e : DispatchAssigned F) (s : Sinks F)
      → Adds e s (handle_event (record { publish = p; put = o }) bucket topic e s).1
  unfolding handle_event send_assignment_notification write_audit_record
  handle_ends p o none none e s = (inl refl, inl refl)
  handle_ends done o none (some t) e s = (inr (t, refl), inl refl)
  handle_ends failed o none (some t) e s = (inl refl, inl refl)
  handle_ends lost o none (some t) e s = (inr (t, refl), inl refl)
  handle_ends p done (some b) none e s = (inl refl, inr (b, refl))
  handle_ends p failed (some b) none e s = (inl refl, inl refl)
  handle_ends p lost (some b) none e s = (inl refl, inr (b, refl))
  handle_ends done done (some b) (some t) e s = (inr (t, refl), inr (b, refl))
  handle_ends done failed (some b) (some t) e s = (inr (t, refl), inl refl)
  handle_ends done lost (some b) (some t) e s = (inr (t, refl), inr (b, refl))
  handle_ends failed o (some b) (some t) e s = (inl refl, inl refl)
  handle_ends lost o (some b) (some t) e s = (inr (t, refl), inl refl)

  pub handle_event-Adds :
      (io : LambdaIo) (bucket topic : Option String) (e : DispatchAssigned F) (s : Sinks F)
      → Adds e s (handle_event io bucket topic e s).1
  handle_event-Adds io bucket topic e s = handle_ends io.publish io.put bucket topic e s
