-- ===== src/Worker/Poll.antt =====
-- services/dispatch-worker/src/main.rs: `run_poll_loop`, with the tasks that it spawns. The semaphore
-- counts the free permits; a task has one from its spawning to its end. A task runs its handler at
-- its end, in one step.
pub mod Bounds
use velocity_dispatch.Prelude.{ℕ, suc, ◌≤◌, ◌≡◌, List, [], ◌∷◌, ◌++◌, Bool, true, count}
use velocity_dispatch.Float.{Float}
use velocity_dispatch.Core.Codec.{Codec}
use velocity_dispatch.Worker.Eventbridge.{DispatchEventPublisher}
use velocity_dispatch.Worker.Handler.{Message, HandlerConfig, World, HandleIo, handle_message}

abbrev pub size : List Message → ℕ
size ms = count (λ _. true) ms

pub record PollState (F : Type 0) : Type 0 where
  pub world : World F
  -- received, and not yet given to a task
  pub messages : List Message
  pub permits : ℕ
  pub running : List Message
  -- all messages that were ever received, and those whose task has ended
  pub received : List Message
  pub ended : List Message

-- Before the first `receive_message`, under `Semaphore::new(cfg.max_in_flight)`.
abbrev pub begin_polling : {F : Type 0} → ℕ → World F → PollState F
begin_polling max_in_flight w = record {
  world = w;
  messages = [];
  permits = max_in_flight;
  running = [];
  received = [];
  ended = [];
}

module _ {F : Type 0} ⦃f : Float F⦄ (codec : Codec F) (publisher : DispatchEventPublisher)
    (cfg : HandlerConfig) where
  pub data Turn (s t : PollState F) : Type 0 where
    -- `max_number_of_messages(10)`; the loop asks again when each message has its task
    receives :
        (ms : List Message)
        → s.messages ≡ []
        → size ms ≤ 10
        → t ≡ record s { messages = ms; received = s.received ++ ms }
        → Turn s t
    -- an error of `receive_message` is logged
    backs_off : s.messages ≡ [] → t ≡ s → Turn s t
    -- `acquire_owned`, then `spawn`
    spawns :
        (m : Message) (ms : List Message) (free : ℕ)
        → s.messages ≡ m ∷ ms
        → s.permits ≡ suc free
        → t ≡ record s { messages = ms; permits = free; running = m ∷ s.running }
        → Turn s t
    -- the handler's error is logged, and the permit dropped
    ends :
        (io : HandleIo) (m : Message) (before after : List Message)
        → s.running ≡ before ++ m ∷ after
        → t ≡ record s {
          world = (handle_message codec io publisher cfg m s.world).1;
          permits = suc s.permits;
          running = before ++ after;
          ended = m ∷ s.ended;
        }
        → Turn s t

  pub data Polls (s : PollState F) : PollState F → Type 0 where
    here : Polls s s
    next : {t u : PollState F} → Polls s t → Turn t u → Polls s u
