-- ===== src/Worker/Poll/Bounds.antt =====
-- How much the poll loop has in hand, and that it loses nothing.
use velocity_dispatch.Prelude.{
  ℕ, zero, ap, ◌∙◌, suc, ◌+◌, ◌≤◌, ◌<◌, ◌≡◌, ◌≢◌, ◌⊎◌, refl, sym, inl, inr, List, [], ◌∷◌, ◌++◌,
  Bool, true, count, count-append, arith,
}
use mathlib.Core.Path.{subst}
use velocity_dispatch.Float.{Float}
use velocity_dispatch.Core.Codec.{Codec}
use velocity_dispatch.Worker.Eventbridge.{DispatchEventPublisher}
use velocity_dispatch.Worker.Handler.{Message, HandlerConfig, World}
use velocity_dispatch.Worker.Poll.{
  PollState, Turn, receives, backs_off, spawns, ends, Polls, here, next, begin_polling, size,
}

module _ {F : Type 0} where
  pub record IsPolling (max_in_flight : ℕ) (s : PollState F) : Type 0 where
    -- each permit is free or with a task
    pub permits_kept : s.permits + size s.running ≡ max_in_flight
    pub batch : size s.messages ≤ 10
    pub all_there :
        (p : Message → Bool)
        → count p s.received ≡ count p s.messages + count p s.running + count p s.ended

count-middle :
    (p : Message → Bool) (m : Message) (before after : List Message)
    → count p (before ++ m ∷ after) ≡ count p (m ∷ before ++ after)
count-middle p m [] after = refl
count-middle p m (x ∷ xs) after = ground (arith, count-middle p m xs after)

zero_or_suc : (n : ℕ) → (n ≡ 0) ⊎ ((k : ℕ) × (n ≡ suc k))
zero_or_suc zero = inl refl
zero_or_suc (suc k) = inr (k, refl)

module _ {F : Type 0} ⦃f : Float F⦄ (codec : Codec F) (publisher : DispatchEventPublisher)
    (cfg : HandlerConfig) (max_in_flight : ℕ) where
  pub Turn-IsPolling :
      {s t : PollState F}
      → Turn codec publisher cfg s t
      → IsPolling max_in_flight s
      → IsPolling max_in_flight t
  Turn-IsPolling {s} (receives ms none_left few e) i =
      subst (IsPolling max_in_flight) (sym e) (record {
        permits_kept = i.permits_kept;
        batch = few;
        all_there = λ p. rw (count-append p s.received ms) (
            let nothing : count p s.messages ≡ 0 = ap (count p) none_left in
            omega (arith, i.all_there p, nothing));
      })
  Turn-IsPolling (backs_off _ e) i = subst (IsPolling max_in_flight) (sym e) i
  Turn-IsPolling {s} (spawns m ms free e k h) i = subst (IsPolling max_in_flight) (sym h) (record {
    permits_kept = omega (arith, i.permits_kept, k);
    batch =
        (let split : size s.messages ≡ suc (size ms) = ap size e in omega (arith, i.batch, split));
    all_there = λ p.
        let split : count p s.messages ≡ count p (m ∷ ms) = ap (count p) e in
        ground (arith, i.all_there p, split);
  })
  Turn-IsPolling {s} (ends io m before after e h) i =
      subst (IsPolling max_in_flight) (sym h) (record {
        permits_kept =
            (let split : size s.running ≡ suc (size (before ++ after)) =
                ap size e ∙ count-middle (λ _. true) m before after in
              omega (arith, i.permits_kept, split));
        batch = i.batch;
        all_there = λ p.
            let split = ap (count p) e ∙ count-middle p m before after in
            ground (arith, i.all_there p, split);
      })

  pub begin-IsPolling : (w : World F) → IsPolling max_in_flight (begin_polling max_in_flight w)
  begin-IsPolling w = record {
    permits_kept = omega arith;
    batch = omega arith;
    all_there = λ p. refl;
  }

  Polls-IsPolling :
      {s t : PollState F}
      → IsPolling max_in_flight s
      → Polls codec publisher cfg s t
      → IsPolling max_in_flight t
  Polls-IsPolling i here = i
  Polls-IsPolling i (next r st) = Turn-IsPolling st (Polls-IsPolling i r)

  -- However the loop and its tasks run from the start, at most `max_in_flight` tasks run at a time and
  -- at most 10 messages wait for one; and every message that was received waits, runs or has ended,
  -- as often as it was received.
  pub Polls-bounds :
      (w : World F) {t : PollState F} (p : Message → Bool)
      → Polls codec publisher cfg (begin_polling max_in_flight w) t
      → (size t.running ≤ max_in_flight)
        × (size t.messages ≤ 10)
        × (count p t.received ≡ count p t.messages + count p t.running + count p t.ended)
  Polls-bounds w p r =
      let i = Polls-IsPolling (begin-IsPolling w) r in
      (omega (arith, i.permits_kept), i.batch, i.all_there p)

  -- With at least one permit, while a message waits the loop can spawn its task, or there is a task
  -- whose end frees a permit.
  pub Polls-goes_on :
      (w : World F) {t : PollState F} (m : Message) (ms : List Message)
      → 0 < max_in_flight
      → Polls codec publisher cfg (begin_polling max_in_flight w) t
      → t.messages ≡ m ∷ ms
      → ((u : PollState F) × Turn codec publisher cfg t u × (u.messages ≡ ms))
        ⊎ (0 < size t.running)
  Polls-goes_on w {t} m ms some_permit r waits =
      let i = Polls-IsPolling (begin-IsPolling w) r in
      elim (zero_or_suc t.permits) [
        | inl none_free ↦ inr (omega (arith, i.permits_kept, none_free))
        | inr (free, k) ↦ inl (_, spawns m ms free waits k refl, refl)
      ]

module _ {F : Type 0} ⦃f : Float F⦄ (codec : Codec F) (publisher : DispatchEventPublisher)
    (cfg : HandlerConfig) where
  nothing_runs :
      (w : World F) {t : PollState F} (m : Message) (before after : List Message)
      → Polls codec publisher cfg (begin_polling 0 w) t
      → t.running ≢ before ++ m ∷ after
  nothing_runs w m before after r e =
      let bound = (Polls-bounds codec publisher cfg 0 w (λ _. true) r).0 in
      let one = ap size e ∙ count-middle (λ _. true) m before after in
      absurd (omega (arith, bound, one))

  -- With no permit, which `MAX_IN_FLIGHT=0` asks for, no message is ever handled: whatever the loop
  -- receives, the world stays as it was, and no task ends.
  pub Polls-stuck :
      (w : World F) {t : PollState F}
      → Polls codec publisher cfg (begin_polling 0 w) t
      → (t.world ≡ w) × (t.ended ≡ [])
  Polls-stuck w here = (refl, refl)
  Polls-stuck w (next r (receives ms _ _ e)) =
      let (same, none_ended) = Polls-stuck w r in rw e (same, none_ended)
  Polls-stuck w (next r (backs_off _ e)) =
      let (same, none_ended) = Polls-stuck w r in rw e (same, none_ended)
  Polls-stuck w (next r (spawns m ms free _ _ e)) =
      let (same, none_ended) = Polls-stuck w r in rw e (same, none_ended)
  Polls-stuck w (next r (ends io m before after e h)) = absurd (nothing_runs w m before after r e)
