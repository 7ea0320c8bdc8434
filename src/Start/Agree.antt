-- ===== src/Start/Agree.antt =====
-- dispatch-api and dispatch-worker are configured apart, and agree on what they share.
use velocity_dispatch.Prelude.{
  inl, inr, leb, Bool-cases, ℕ, ◌≡◌, refl, sym, ◌∙◌, ap, String, Option, Result, ok, err, Outcome,
  done, failed, lost,
}
use velocity_dispatch.Start.Config.{Env, Parse, api_from_env, worker_from_env}
use velocity_dispatch.Start.Migrate.{Server, migrate, connect}
use velocity_dispatch.Start.Main.{
  StartIo, StartError, ApiProcess, WorkerProcess, api_main, worker_main,
}

-- Where a process has the database and the queue.
abbrev Place : Type 0
Place = String × String

abbrev api_place : Result StartError ApiProcess → Place → Place
api_place (ok p) other = (p.pool.url, p.publisher.queue_url)
api_place (err e) other = other

abbrev worker_place : Result StartError WorkerProcess → Place → Place
worker_place (ok q) other = (q.pool.url, q.config.sqs_queue_url)
worker_place (err e) other = other

module _ {F : Type 0} where
  api_started :
      (a b c : Outcome) (n : Option ℕ) (m : ℕ) (parse : Parse) (env : Env) (s : Server F)
      → let io : StartIo = record {
        connect = record { connect = a; migrate = b };
        bind = c;
        parallelism = n;
        max_permits = m;
      } in
        let place : Place =
          ((api_from_env parse env).database_url, (api_from_env parse env).sqs_queue_url) in
        api_place (api_main io parse env s).0 place ≡ place
  unfolding api_main connect migrate
  api_started done done done n m parse env s = refl
  api_started done done failed n m parse env s = refl
  api_started done done lost n m parse env s = refl
  api_started done failed c n m parse env s = refl
  api_started done lost c n m parse env s = refl
  api_started failed b c n m parse env s = refl
  api_started lost b c n m parse env s = refl

  worker_started :
      (a b c : Outcome) (n : Option ℕ) (m : ℕ) (parse : Parse) (env : Env) (s : Server F)
      → let io : StartIo = record {
        connect = record { connect = a; migrate = b };
        bind = c;
        parallelism = n;
        max_permits = m;
      } in
        let place : Place =
          ((worker_from_env parse env).database_url, (worker_from_env parse env).sqs_queue_url) in
        worker_place (worker_main io parse env s).0 place ≡ place
  unfolding worker_main connect migrate
  worker_started done done c n m parse env s =
      elim (Bool-cases (leb (worker_from_env parse env).max_in_flight m)) [
        | inl few ↦ rw few refl
        | inr many ↦ rw many refl
      ]
  worker_started done failed c n m parse env s = refl
  worker_started done lost c n m parse env s = refl
  worker_started failed b c n m parse env s = refl
  worker_started lost b c n m parse env s = refl

  -- Two processes that started in the same environment use the same database, and the queue that
  -- dispatch-api sends to is the one that dispatch-worker deletes from.
  starts-agree :
      (parse : Parse) (env : Env) (io jo : StartIo) (s t : Server F) (p : ApiProcess)
      (q : WorkerProcess)
      → (api_main io parse env s).0 ≡ ok p
      → (worker_main jo parse env t).0 ≡ ok q
      → (p.pool.url ≡ q.pool.url) × (p.publisher.queue_url ≡ q.config.sqs_queue_url)
  unfolding api_from_env worker_from_env
  starts-agree parse env io jo s t p q h k = (ap (λ x. x.0) same_place, ap (λ x. x.1) same_place)
    where
      place : Place
      place = ((api_from_env parse env).database_url, (api_from_env parse env).sqs_queue_url)

      left : (p.pool.url, p.publisher.queue_url) ≡ place
      left =
          ap (λ r. api_place r place) (sym h)
          ∙ api_started io.connect.connect io.connect.migrate io.bind io.parallelism io.max_permits
              parse env s

      right : (q.pool.url, q.config.sqs_queue_url) ≡ place
      right =
          ap (λ r. worker_place r place) (sym k)
          ∙ worker_started jo.connect.connect jo.connect.migrate jo.bind jo.parallelism
              jo.max_permits parse env t

      same_place :
          ◌≡◌ {A = Place} (p.pool.url, p.publisher.queue_url) (q.pool.url, q.config.sqs_queue_url)
      same_place = left ∙ sym right
