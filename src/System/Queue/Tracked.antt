-- ===== src/System/Queue/Tracked.antt =====
-- Where the message of an order is, when letters come and go.
use mathlib.Core.Path.{subst}
use velocity_dispatch.Prelude.{
  ◌≡◌, ◌⊎◌, refl, inl, inr, List, ◌∷◌, ◌++◌, Memᴰ, some, mem_mid, mem_around, mem_mid_cases,
}
use velocity_dispatch.Float.{Float}
use velocity_dispatch.Core.Model.{Uuid}
use velocity_dispatch.Core.Codec.{Codec}
use velocity_dispatch.Core.Events.{OrderCreated}
use velocity_dispatch.Store.{IsSchema}
use velocity_dispatch.Api.Sqs.{SendMessage}
use velocity_dispatch.Worker.Matching.{Pending}
use velocity_dispatch.System.Queue.{Letter, Mail, again}

module _ {F : Type 0} ⦃f : Float F⦄ (codec : Codec F) where
  -- The message is about that order.
  abbrev pub IsAbout : Uuid → SendMessage → Type 0
  IsAbout id m =
      (event : OrderCreated F) × (codec.order_from_str m.message_body ≡ some event)
      × (event.order_id ≡ id)

  -- Where the message of an order is, or that there is none.
  abbrev pub IsTracked : Mail F → Uuid → Type 0
  IsTracked s id =
      ((l : Letter) × Memᴰ l s.queue × IsAbout id l.message)
      ⊎ ((m : SendMessage) × Memᴰ m s.dead × IsAbout id m)
      ⊎ Memᴰ id s.unsent

  pub record IsKept (s : Mail F) : Type 0 where
    pub schema : IsSchema s.state.db
    pub tracked : (id : Uuid) → Pending id s.state.db → IsTracked s id

  -- A letter leaves the queue, or another one with its message takes its place.
  pub without :
      (xs ys : List Letter) (l : Letter) (s : Mail F) (id : Uuid)
      → s.queue ≡ xs ++ l ∷ ys
      → IsTracked s id
      → IsAbout id l.message ⊎ IsTracked (record s { queue = xs ++ ys }) id
  without xs ys l s id e (inl (k, there, about)) =
      elim (mem_mid_cases l xs ys (subst (Memᴰ k) e there)) [
        | inl this ↦ inl (subst (λ (j : Letter). IsAbout id j.message) this about)
        | inr other ↦ inr (inl (k, other, about))
      ]
  without xs ys l s id e (inr (inl dead)) = inr (inr (inl dead))
  without xs ys l s id e (inr (inr unsent)) = inr (inr (inr unsent))

  pub with_again :
      (xs ys : List Letter) (l : Letter) (s : Mail F) (id : Uuid)
      → IsAbout id l.message ⊎ IsTracked (record s { queue = xs ++ ys }) id
      → IsTracked (record s { queue = xs ++ again l ∷ ys }) id
  with_again xs ys l s id (inl about) = inl (again l, mem_mid (again l) xs ys, about)
  with_again xs ys l s id (inr (inl (k, there, about))) =
      inl (k, mem_around (again l) xs ys there, about)
  with_again xs ys l s id (inr (inr (inl dead))) = inr (inl dead)
  with_again xs ys l s id (inr (inr (inr unsent))) = inr (inr unsent)

  pub with_dead :
      (xs ys : List Letter) (l : Letter) (s : Mail F) (id : Uuid)
      → IsAbout id l.message ⊎ IsTracked (record s { queue = xs ++ ys }) id
      → IsTracked (record s { queue = xs ++ ys; dead = l.message ∷ s.dead }) id
  with_dead xs ys l s id (inl about) = inr (inl (l.message, Memᴰ.head refl, about))
  with_dead xs ys l s id (inr (inl there)) = inl there
  with_dead xs ys l s id (inr (inr (inl (m, there, about)))) = inr (inl (m, Memᴰ.tail there, about))
  with_dead xs ys l s id (inr (inr (inr unsent))) = inr (inr unsent)
