-- ===== src/Start/Main.antt =====
-- The `main` functions: what each process has when it begins to serve.
use mathlib.Core.Option.{get_or}
use velocity_dispatch.Prelude.{
  ℕ, String, Option, Result, ok, Outcome, attempt, ◌>>=◌, return, throw, map_err, leb,
  if◌then◌else◌,
}
use velocity_dispatch.Core.Events.{DispatchAssigned}
use velocity_dispatch.Core.Json.{Json}
use velocity_dispatch.Store.{SqlError}
use velocity_dispatch.Api.Sqs.{OrderEventPublisher}
use velocity_dispatch.Worker.Eventbridge.{DispatchEventPublisher}
use velocity_dispatch.Worker.Handler.{HandlerConfig}
use velocity_dispatch.Lambda.Defs.{LambdaIo, LambdaError, Sinks, handle_event}
use velocity_dispatch.Start.Config.{
  Env, Parse, ApiConfig, WorkerConfig, api_from_env, worker_from_env,
}
use velocity_dispatch.Start.Migrate.{Server, PoolOptions, ConnectIo, connect}

pub data StartError : Type 0 where
  sql : SqlError → StartError
  bind : String → StartError
  -- `Semaphore::new` panics
  too_many_permits : ℕ → StartError

-- dispatch-api, as `HttpServer` runs it.
pub record ApiProcess : Type 0 where
  pub pool : PoolOptions
  pub publisher : OrderEventPublisher
  pub bind_addr : String
  pub workers : ℕ

-- How the start of a process goes: the connection, whether the address can be bound, what
-- `available_parallelism` says, and the greatest number of permits that tokio accepts.
pub record StartIo : Type 0 where
  pub connect : ConnectIo
  pub bind : Outcome
  pub parallelism : Option ℕ
  pub max_permits : ℕ

abbrev pub num_cpus : Option ℕ → ℕ
num_cpus parallelism = get_or parallelism 4

-- dispatch-worker, at the first turn of `run_poll_loop`.
pub record WorkerProcess : Type 0 where
  pub pool : PoolOptions
  pub publisher : DispatchEventPublisher
  pub config : HandlerConfig
  pub permits : ℕ

abbrev pub handler_config : WorkerConfig → HandlerConfig
handler_config cfg = record {
  sqs_queue_url = cfg.sqs_queue_url;
  match_radius_km = cfg.match_radius_km;
  environment = cfg.environment;
}

module _ {F : Type 0} where
  abbrev pub serve :
      StartIo → ApiConfig → PoolOptions → Server F → Result StartError ApiProcess × Server F
  serve io cfg pool s = attempt io.bind (bind cfg.bind_addr) s (
    ok (record {
      pool = pool;
      publisher = record { queue_url = cfg.sqs_queue_url };
      bind_addr = cfg.bind_addr;
      workers = num_cpus io.parallelism;
    }),
    s,
  )

  unfoldable pub api_main :
      StartIo → Parse → Env → Server F → Result StartError ApiProcess × Server F
  api_main io parse env = do
    let cfg = api_from_env parse env
    pool ← map_err sql (connect io.connect cfg.db_max_connections cfg.database_url)
    serve io cfg pool

  -- `Semaphore::new`: its free permits
  abbrev pub new_semaphore : ℕ → ℕ → Server F → Result StartError ℕ × Server F
  new_semaphore max_permits permits =
      if leb permits max_permits then return permits else throw (too_many_permits permits)

  unfoldable pub worker_main :
      StartIo → Parse → Env → Server F → Result StartError WorkerProcess × Server F
  worker_main io parse env = do
    let cfg = worker_from_env parse env
    pool ← map_err sql (connect io.connect cfg.db_max_connections cfg.database_url)
    permits ← new_semaphore io.max_permits cfg.max_in_flight
    return (record {
      pool = pool;
      publisher = record { bus_name = cfg.event_bus_name };
      config = handler_config cfg;
      permits = permits;
    })

  -- The closure that the lambda's `main` gives to the runtime.
  unfoldable pub lambda_handler :
      Env → LambdaIo → DispatchAssigned F → Sinks F → Result LambdaError (Json F) × Sinks F
  lambda_handler env io event = handle_event io (env "AUDIT_BUCKET") (env "NOTIFY_TOPIC_ARN") event
