-- ===== src/Start/Ready.antt =====
-- Processes that start in any order, any number of times, with any failures.
use velocity_dispatch.Prelude.{
  ℕ, ◌≡◌, ◌⊎◌, refl, ◌∙◌, ap, inl, inr, Bool, true, false, List, [], ◌∷◌, Option, none, some,
  Result, ok, err, Outcome, done, failed, lost, Bool-cases, leb, if◌then◌else◌,
}
use velocity_dispatch.Float.{Float}
use velocity_dispatch.Core.Codec.{Codec}
use velocity_dispatch.Store.{Database, DriverRow, OrderRow, AssignmentRow}
use velocity_dispatch.Api.Sqs.{OrderEventPublisher}
use velocity_dispatch.Worker.Eventbridge.{DispatchEventPublisher}
use velocity_dispatch.Worker.Handler.{HandlerConfig}
use velocity_dispatch.Start.Config.{Env, Parse, worker_from_env}
use velocity_dispatch.Start.Migrate.{
  Server, init_sql, migrate, connect, tables, database_of, create_if_missing,
}
use velocity_dispatch.Start.Main.{StartIo, api_main, worker_main}
use velocity_dispatch.System.Run.{State}
use velocity_dispatch.System.Sound.{IsSound}

-- A start of dispatch-api or of dispatch-worker.
pub data Start : Type 0 where
  starts_api starts_worker : StartIo → Parse → Env → Start

abbrev pub succeeded : {E A : Type 0} → Result E A → Bool
succeeded (ok a) = true
succeeded (err e) = false

module _ {F : Type 0} where
  -- Whether the process serves, and the server after its start.
  abbrev pub run_start : Start → Server F → Bool × Server F
  run_start (starts_api io parse env) s = let (r, t) = api_main io parse env s in (succeeded r, t)
  run_start (starts_worker io parse env) s =
      let (r, t) = worker_main io parse env s in (succeeded r, t)

  unfoldable pub boot : List Start → Server F → Server F
  boot [] s = s
  boot (x ∷ xs) s = boot xs (run_start x s).1

  abbrev pub migrated : Server F → Server F
  migrated s = if s.applied then s else init_sql s

  -- A start does nothing, or migrates; a success migrates.
  abbrev Starts : Server F → Bool × Server F → Type 0
  Starts s (b, t) = ((b ≡ false) × (t ≡ s)) ⊎ (t ≡ migrated s)

  api_cases :
      (a b c : Outcome) (p : Option ℕ) (m : ℕ) (parse : Parse) (env : Env) (s : Server F)
      → let io : StartIo = record {
        connect = record { connect = a; migrate = b };
        bind = c;
        parallelism = p;
        max_permits = m;
      } in
        Starts s (run_start (starts_api io parse env) s)
  unfolding api_main connect migrate
  api_cases done done done p m parse env s = inr refl
  api_cases done done failed p m parse env s = inr refl
  api_cases done done lost p m parse env s = inr refl
  api_cases done failed c p m parse env s = inl (refl, refl)
  api_cases done lost c p m parse env s = inr refl
  api_cases failed b c p m parse env s = inl (refl, refl)
  api_cases lost b c p m parse env s = inl (refl, refl)

  worker_cases :
      (a b c : Outcome) (p : Option ℕ) (m : ℕ) (parse : Parse) (env : Env) (s : Server F)
      → let io : StartIo = record {
        connect = record { connect = a; migrate = b };
        bind = c;
        parallelism = p;
        max_permits = m;
      } in
        Starts s (run_start (starts_worker io parse env) s)
  unfolding worker_main connect migrate
  worker_cases done done c p m parse env s =
      elim (Bool-cases (leb (worker_from_env parse env).max_in_flight m)) [
        | inl few ↦ rw few (inr refl)
        | inr many ↦ rw many (inr refl)
      ]
  worker_cases done failed c p m parse env s = inl (refl, refl)
  worker_cases done lost c p m parse env s = inr refl
  worker_cases failed b c p m parse env s = inl (refl, refl)
  worker_cases lost b c p m parse env s = inl (refl, refl)

  start_cases : (st : Start) (s : Server F) → Starts s (run_start st s)
  start_cases (starts_api io parse env) s =
      api_cases io.connect.connect io.connect.migrate io.bind io.parallelism io.max_permits parse
        env s
  start_cases (starts_worker io parse env) s =
      worker_cases io.connect.connect io.connect.migrate io.bind io.parallelism io.max_permits parse
        env s

  -- A server that nobody has used.
  abbrev pub fresh_server : Server F
  fresh_server = record { applied = false; drivers = none; orders = none; assignments = none }

  abbrev pub no_rows : Database F
  no_rows = record { drivers = []; orders = []; assignments = [] }

  tables_kept :
      (ds : Option (List (DriverRow F))) (os : Option (List (OrderRow F)))
      (as' : Option (List (AssignmentRow F))) (db : Database F)
      → tables ds os as' ≡ some db
      → tables (create_if_missing ds) (create_if_missing os) (create_if_missing as') ≡ some db
  tables_kept (some ds) (some os) (some as') db h = h
  tables_kept (some ds) (some os) none db h = cc
  tables_kept (some ds) none as' db h = cc
  tables_kept none os as' db h = cc

  migrated_kept :
      (s : Server F) (db : Database F)
      → database_of s ≡ some db
      → database_of (migrated s) ≡ some db
  migrated_kept s db h = elim (Bool-cases s.applied) [
    | inl e ↦ rw e h
    | inr e ↦ rw e (tables_kept s.drivers s.orders s.assignments db h)
  ]

  start_kept :
      (st : Start) (s : Server F) (db : Database F)
      → database_of s ≡ some db
      → database_of (run_start st s).1 ≡ some db
  start_kept st s db h = elim (start_cases st s) [
    | inl (_, same) ↦ ap database_of same ∙ h
    | inr moved ↦ ap database_of moved ∙ migrated_kept s db h
  ]

  -- Where the tables exist, any number of starts of the services, with any failures, leaves their rows
  -- as they are.
  boot-keeps :
      (starts : List Start) (s : Server F) (db : Database F)
      → database_of s ≡ some db
      → database_of (boot starts s) ≡ some db
  unfolding boot
  boot-keeps [] s db h = h
  boot-keeps (x ∷ xs) s db h = boot-keeps xs (run_start x s).1 db (start_kept x s db h)

  -- Nobody has migrated the server yet, or somebody has.
  abbrev Young : Server F → Type 0
  Young s = (s ≡ fresh_server) ⊎ (s ≡ migrated fresh_server)

  Young-start : (st : Start) (s : Server F) → Young s → Young (run_start st s).1
  Young-start st s y = elim (start_cases st s) [
    | inl (_, same) ↦ elim y [ inl e ↦ inl (same ∙ e) | inr e ↦ inr (same ∙ e) ]
    | inr moved ↦ inr (moved ∙ elim y [ inl e ↦ ap migrated e | inr e ↦ ap migrated e ])
  ]

  Young-boot : (starts : List Start) (s : Server F) → Young s → Young (boot starts s)
  unfolding boot
  Young-boot [] s y = y
  Young-boot (x ∷ xs) s y = Young-boot xs (run_start x s).1 (Young-start x s y)

  start-ready :
      (starts : List Start) (st : Start)
      → (run_start st (boot starts fresh_server)).0 ≡ true
      → database_of (run_start st (boot starts fresh_server)).1 ≡ some no_rows
  start-ready starts st h =
      let s = boot starts fresh_server in
      elim (start_cases st s) [
        | inl (refused, _) ↦ cc
        | inr moved ↦ ap database_of moved ∙ elim (Young-boot starts fresh_server (inl refl)) [
          | inl e ↦ ap (λ t. database_of (migrated t)) e
          | inr e ↦ ap (λ t. database_of (migrated t)) e
        ]
      ]

  abbrev pub opening : State F
  opening = record { db = no_rows; sent = []; bus = []; deleted = []; printed = [] }

module _ {F : Type 0} ⦃f : Float F⦄ (codec : Codec F) (sqs : OrderEventPublisher)
    (publisher : DispatchEventPublisher) (cfg : HandlerConfig) where
  opening-IsSound : IsSound codec sqs publisher cfg opening
  opening-IsSound = record {
    schema = record {
      order_keys = tt;
      driver_keys = tt;
      assignment_keys = tt;
      order_checks = tt;
      driver_checks = tt;
      references = tt;
    };
    balanced = λ id. refl;
    known = tt;
  }

  -- After any number of starts of either service on a new server, in any order and with any failures:
  -- once a start succeeds, the three tables exist and are empty, and the services begin in a sound
  -- state.
  pub start-IsSound :
      (starts : List Start) (st : Start)
      → (run_start {F = F} st (boot starts fresh_server)).0 ≡ true
      → (database_of (run_start {F = F} st (boot starts fresh_server)).1 ≡ some opening.db)
        × IsSound codec sqs publisher cfg opening
  start-IsSound starts st h = (start-ready starts st h, opening-IsSound)
