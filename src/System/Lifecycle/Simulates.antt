-- ===== src/System/Lifecycle/Simulates.antt =====
-- Each step of the services is an event of the abstract system, and no event takes an order back.
use mathlib.Core.Path.{subst}
use velocity_dispatch.Prelude.{
  ℕ, ◌≡◌, ◌≢◌, refl, sym, ◌∙◌, ap, inl, inr, Bool, false, List, [], ◌∷◌, ◌++◌, Option, none, some,
  find?, count, ℕ-cases, ◌==◌, ==_refl, arith, if◌then◌else◌,
}
use velocity_dispatch.Float.{Float}
use velocity_dispatch.Core.Model.{Uuid, DateTime, Order}
use velocity_dispatch.Core.Codec.{Codec, IsFaithful}
use velocity_dispatch.Store.{
  Database, OrderRow, AssignmentRow, row_of-append, row_of-append_other, row_of-none, has,
}
use velocity_dispatch.Api.Db.{order_key, row_of_order}
use velocity_dispatch.Api.Sqs.{OrderEventPublisher}
use velocity_dispatch.Worker.Matching.{AssignIo, Pending, complete, assignment_row}
use velocity_dispatch.Worker.Matching.Claim.{claimed_self, claimed-other}
use velocity_dispatch.Worker.Eventbridge.{DispatchEventPublisher}
use velocity_dispatch.Worker.Handler.{HandlerConfig}
use velocity_dispatch.System.Writes.{
  Write, same, places, upserts, assigns, of_order, assignments_due, IsBalanced,
}
use velocity_dispatch.System.Run.{State, Reach, here, next}
use velocity_dispatch.System.Sound.{IsSound, Step-Write, Reach-IsSound}
use velocity_dispatch.System.Lifecycle.{
  settled, Board, Event, stays, opens, settles, Events, none_yet, after, stage_of_row, board,
}

different : (a b : ℕ) → a ≢ b → (a == b) ≡ false
different a b ne = ground arith

module _ {F : Type 0} where
  find-append :
      (p : AssignmentRow F → Bool) (xs : List (AssignmentRow F)) (a : AssignmentRow F)
      → count p xs ≡ 0
      → find? p (xs ++ a ∷ []) ≡ (if p a then some a else none)
  find-append p [] a h = refl
  find-append p (x ∷ xs) a h = ground (arith, find-append p xs a)

  find-append_other :
      (p : AssignmentRow F → Bool) (xs : List (AssignmentRow F)) (a : AssignmentRow F)
      → p a ≡ false
      → find? p (xs ++ a ∷ []) ≡ find? p xs
  find-append_other p [] a h = rw h
  find-append_other p (x ∷ xs) a h = rw (find-append_other p xs a h)

  places-Event :
      (stored : DateTime) (o : Order F) (db : Database F)
      → has order_key o.id db.orders ≡ false
      → Event (board db) (board (record db { orders = db.orders ++ row_of_order stored o ∷ [] }))
  places-Event stored o db new =
      opens o.id (rw (row_of-none order_key o.id db.orders new))
        (rw (row_of-append order_key o.id db.orders (row_of_order stored o))
          (rw (new, ==_refl o.id)))
        λ k ne.
          ap (λ r. stage_of_row r (find? (of_order k) db.assignments))
            (row_of-append_other order_key k db.orders (row_of_order stored o) ne)

  due_waiting : (o : OrderRow F) → o.status ≡ "pending" → assignments_due (some o) ≡ 0
  due_waiting o p = rw p

  -- The three writes for a pending order settle it.
  pub complete-board :
      (io : AssignIo) (id driver_id : Uuid) (x : F) (db : Database F)
      → Pending id db
      → IsBalanced db
      → board (complete io id driver_id x db) id ≡ settled (some driver_id)
  complete-board io id driver_id x db (row, found, p) balanced =
      rw (claimed_self id db.orders row found p) (
        rw
          (find-append (of_order id) db.assignments (assignment_row io id driver_id x)
            (balanced id ∙ ap assignments_due found ∙ due_waiting row p))
          (rw (==_refl id)))

  assigns-Event :
      (io : AssignIo) (id driver_id : Uuid) (x : F) (db : Database F)
      → Pending id db
      → IsBalanced db
      → Event (board db) (board (complete io id driver_id x db))
  assigns-Event io id driver_id x db (row, found, p) balanced =
      settles id driver_id (rw found (rw p))
        (complete-board io id driver_id x db (row, found, p) balanced)
        λ k ne. rw (claimed-other k id db.orders ne) (
          rw (
            find-append_other (of_order k) db.assignments (assignment_row io id driver_id x)
              (different id k (λ e. ne (sym e)))))

  -- A change of the tables is an event.
  Write-Event : {db t : Database F} → Write db t → IsBalanced db → Event (board db) (board t)
  Write-Event {db} (same e) b = stays (λ k. ap (λ u. board u k) e)
  Write-Event {db} (places stored o new e) b =
      subst (λ u. Event (board db) (board u)) (sym e) (places-Event stored o db new)
  Write-Event {db} (upserts r ok e) b = stays (λ k. ap (λ u. board u k) e)
  Write-Event {db} (assigns io id driver_id x p _ _ e) b =
      subst (λ u. Event (board db) (board u)) (sym e) (assigns-Event io id driver_id x db p b)

Event-settled :
    {g h : Board} (id : Uuid) (d : Option Uuid) → Event g h → g id ≡ settled d → h id ≡ settled d
Event-settled id d (stays kept) e = kept id ∙ e
Event-settled id d (opens k old new others) e = elim (ℕ-cases id k) [
  | inl equal ↦ cc
  | inr ne ↦ others id ne ∙ e
]
Event-settled id d (settles k driver_id old new others) e = elim (ℕ-cases id k) [
  | inl equal ↦ cc
  | inr ne ↦ others id ne ∙ e
]

Events-settled :
    {g h : Board} (id : Uuid) (d : Option Uuid) → Events g h → g id ≡ settled d → h id ≡ settled d
Events-settled id d none_yet e = e
Events-settled id d (after r v) e = Event-settled id d v (Events-settled id d r e)

module _ {F : Type 0} ⦃f : Float F⦄ (codec : Codec F) (sqs : OrderEventPublisher)
    (publisher : DispatchEventPublisher) (cfg : HandlerConfig) (faithful : IsFaithful codec) where
  -- From a sound state, each history of the services is a history of the abstract system, on the
  -- stages that the tables show: at a step no order changes its stage, or one unknown order starts
  -- waiting, or one waiting order is settled with a driver. The codec is assumed to parse what it
  -- printed for points on Earth, to the same order.
  pub Reach-Events :
      {s t : State F}
      → IsSound codec sqs publisher cfg s
      → Reach codec sqs publisher cfg s t
      → Events (board s.db) (board t.db)
  Reach-Events i here = none_yet
  Reach-Events i (next r st) =
      let sound = Reach-IsSound codec sqs publisher cfg faithful i r in
      after (Reach-Events i r)
        (Write-Event (Step-Write codec sqs publisher cfg st sound.schema) sound.balanced)

  -- From a sound state, in each history, an order that is settled stays settled, with the same driver.
  -- The codec is assumed to parse what it printed for points on Earth, to the same order.
  Reach-settled :
      {s t : State F} (id : Uuid) (d : Option Uuid)
      → IsSound codec sqs publisher cfg s
      → Reach codec sqs publisher cfg s t
      → board s.db id ≡ settled d
      → board t.db id ≡ settled d
  Reach-settled id d i r e = Events-settled id d (Reach-Events i r) e
