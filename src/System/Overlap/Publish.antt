-- ===== src/System/Overlap/Publish.antt =====
-- What the tasks do after their transactions, beside the transactions of the others: main.rs of the
-- worker publishes the event of an assignment after the commit, from the task's memory.
use velocity_dispatch.Prelude.{ℕ, ◌≡◌, List, [], ◌∷◌, ◌++◌}
use velocity_dispatch.Float.{Float}
use velocity_dispatch.Core.Model.{Driver}
use velocity_dispatch.Core.Events.{DispatchAssigned}
use velocity_dispatch.Core.Codec.{Codec}
use velocity_dispatch.Store.{Database}
use velocity_dispatch.Worker.Matching.{event, complete}
use velocity_dispatch.Worker.Eventbridge.{
  PutEventsRequestEntry, PutIo, DispatchEventPublisher, publish,
}
use velocity_dispatch.System.Overlap.{Attempt, recorded, idle, Shared, update, Statement, at_rest}
pub mod Honest
pub mod Once
pub mod Complete

pub record Tasks (F : Type 0) : Type 0 where
  pub shared : Shared F
  -- the events of committed assignments that are not yet published
  pub pending : List (DispatchAssigned F)
  pub bus : List PutEventsRequestEntry

module _ {F : Type 0} where
  abbrev pub committed : Attempt F → Driver F → F → DispatchAssigned F
  committed a d x = event a.io a.order_id d.id x a.io.new_id

  abbrev pub no_tasks : Database F → Tasks F
  no_tasks db = record { shared = at_rest db; pending = []; bus = [] }

module _ {F : Type 0} ⦃f : Float F⦄ (codec : Codec F) (publisher : DispatchEventPublisher) where
  pub data Work (s t : Tasks F) : Type 0 where
    -- a statement; after a commit of this kind the task has not heard of it, or has died
    states : (u : Shared F) → Statement s.shared u → t ≡ record s { shared = u } → Work s t
    commits :
        (i : ℕ) (a : Attempt F) (cs : List (Driver F)) (d : Driver F) (x : F)
        → s.shared.phase i ≡ recorded a cs d x
        → t ≡ record s {
          shared = record {
            db = complete a.io a.order_id d.id x s.shared.db;
            phase = update s.shared.phase i idle;
          };
          pending = committed a d x ∷ s.pending;
        }
        → Work s t
    publishes :
        (io : PutIo) (e : DispatchAssigned F) (before after : List (DispatchAssigned F))
        → s.pending ≡ before ++ e ∷ after
        → t ≡ record s { pending = before ++ after; bus = (publish codec io publisher e s.bus).1 }
        → Work s t
    -- the process ends before it publishes
    forgets :
        (e : DispatchAssigned F) (before after : List (DispatchAssigned F))
        → s.pending ≡ before ++ e ∷ after
        → t ≡ record s { pending = before ++ after }
        → Work s t

  pub data Works (s : Tasks F) : Tasks F → Type 0 where
    not_begun : Works s s
    and_then_work : {t u : Tasks F} → Works s t → Work t u → Works s u
