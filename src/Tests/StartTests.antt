-- ===== src/Tests/StartTests.antt =====
-- Starts of the services on a new server.
use velocity_dispatch.Prelude.{◌≡◌, refl, [], ◌∷◌, List, none, some, done, failed, lost, Outcome}
use velocity_dispatch.Float.Sample.{Sample, sample_float}
use velocity_dispatch.Core.Codec.Sample.{sample_codec}
use velocity_dispatch.Start.Config.{Parse}
use velocity_dispatch.Start.Migrate.{connect, migrate, database_of}
use velocity_dispatch.Start.Main.{StartIo, api_main, worker_main}
use velocity_dispatch.Start.Ready.{
  Start, starts_api, starts_worker, run_start, boot, fresh_server, opening, start-IsSound,
}
use velocity_dispatch.System.Sound.{IsSound}
use velocity_dispatch.Tests.Data.{bus_publisher, queue_publisher, config}

abbrev no_parse : Parse
no_parse = record { u32 = λ _. none; usize = λ _. none }

abbrev with_ends : Outcome → Outcome → StartIo
with_ends connected migrated = record {
  connect = record { connect = connected; migrate = migrated };
  bind = done;
  parallelism = none;
  max_permits = 2_305_843_009_213_693_951;
}

-- The API does not reach the server; the worker migrates and does not hear of it.
abbrev earlier : List Start
earlier =
    starts_api (with_ends failed done) no_parse (λ _. none)
    ∷ starts_worker (with_ends done lost) no_parse (λ _. none)
    ∷ []

abbrev last : Start
last = starts_api (with_ends done done) no_parse (λ _. none)

start-IsSound_example :
    (database_of (run_start last (boot earlier fresh_server)).1 ≡ some (opening {F = Sample}).db)
    × IsSound sample_codec queue_publisher bus_publisher config opening
unfolding boot api_main worker_main connect migrate
start-IsSound_example =
    start-IsSound sample_codec queue_publisher bus_publisher config earlier last refl
