-- ===== src/System/Booked/Histories.antt =====
-- What a driver gets in a history of the services.
use mathlib.Core.Option.{get_or}
use velocity_dispatch.Prelude.{
  ℕ, ◌+◌, ◌≡◌, ◌⊎◌, ◌≤◌, refl, inl, inr, ok, err, Result, Result-cases, count, arith,
}
use velocity_dispatch.Float.{Float}
use velocity_dispatch.Core.Model.{Uuid, GeoPoint, available}
use velocity_dispatch.Core.Coordinates.{new_point_cases}
use velocity_dispatch.Core.Geo.Nearest.{nearest_driver-IsEligible}
use velocity_dispatch.Core.Events.{DispatchAssigned}
use velocity_dispatch.Core.Codec.{Codec}
use velocity_dispatch.Store.{Database, IsSchema}
use velocity_dispatch.Api.Db.{upsert_driver}
use velocity_dispatch.Api.Sqs.{OrderEventPublisher}
use velocity_dispatch.Api.Routes.{
  AppState, DriverIo, RegisterDriverRequest, UpdateLocationRequest, register_driver,
  update_driver_location, requested_status, requested, to_point,
}
use velocity_dispatch.Worker.Matching.{
  AssignIo, AssignOutcome, assigned, already_handled, no_driver_available, WorkerError, sql,
  assign_order, IsAttempt, Chose, assign_order-IsAttempt, candidates,
}
use velocity_dispatch.Worker.Eventbridge.{DispatchEventPublisher}
use velocity_dispatch.Worker.Handler.{HandlerConfig}
use velocity_dispatch.System.Handlers.{create_order_db, insert_effect, handle_message_db}
use velocity_dispatch.System.Run.{
  State, Step, creates, registers, reports, delivers, Reach, here, next, api_of, world_of, delivery,
}
use velocity_dispatch.System.Sound.{Step-Write}
use velocity_dispatch.System.Schema.{Write-IsSchema}
use velocity_dispatch.System.Booked.{
  booked, of_driver, free_of, says_free, candidates-free, booked-complete, upsert_driver-booked,
}

module _ {F : Type 0} ⦃f : Float F⦄ where
  -- A request about a driver leaves the database, or what its upsert leaves of it.
  register_driver_db :
      (io : DriverIo) (body : RegisterDriverRequest F) (s : AppState F)
      → let t = (register_driver io body s).1 in
        (t.db ≡ s.db)
        ⊎ (t.db
            ≡ (upsert_driver io.upsert io.now
                (get_or body.id io.new_id)
                body.name
                (to_point body.location)
                available
                s.db).1)
  unfolding register_driver
  register_driver_db io body s = elim (new_point_cases body.location.lat body.location.lon) [
    | inr (e, _) ↦ rw e (inl refl)
    | inl (e, _) ↦
        rw e
          (elim (Result-cases
            (upsert_driver io.upsert io.now (get_or body.id io.new_id) body.name
              (to_point body.location) available s.db).0) [
                | inl (d, h) ↦ rw h (inr refl)
                | inr (x, h) ↦ rw h (inr refl)
              ])
  ]

  update_driver_location_db :
      (io : DriverIo) (id : Uuid) (body : UpdateLocationRequest F) (s : AppState F)
      → let t = (update_driver_location io id body s).1 in
        (t.db ≡ s.db)
        ⊎ (t.db
            ≡ (upsert_driver io.upsert io.now id ""
                (to_point body.location)
                (requested_status body.status)
                s.db).1)
  unfolding update_driver_location
  update_driver_location_db io id body s =
      elim (new_point_cases body.location.lat body.location.lon) [
        | inr (e, _) ↦ rw e (inl refl)
        | inl (e, _) ↦
            rw e
              (elim (Result-cases
                (upsert_driver io.upsert io.now id "" (to_point body.location)
                  (requested_status body.status) s.db).0) [
                    | inl (d, h) ↦ rw h (inr refl)
                    | inr (x, h) ↦ rw h (inr refl)
                  ])
      ]

  Chose-booked :
      (io : AssignIo) (order_id : Uuid) (pickup : GeoPoint F) (radius_km : ℕ) (db t : Database F)
      (e : DispatchAssigned F) (id : Uuid)
      → Chose io order_id pickup radius_km db e t
      → booked id t ≤ booked id db
  Chose-booked io order_id pickup r db t e id (_, _, (driver, near, _, written)) = rw written (
      booked-complete io order_id driver.id e.distance_km db id (
        candidates-free io db driver
          (nearest_driver-IsEligible pickup (candidates io db) r (driver, e.distance_km)
            near).offered))

  attempt-booked :
      (io : AssignIo) (order_id : Uuid) (pickup : GeoPoint F) (radius_km : ℕ) (db : Database F)
      (id : Uuid)
      → (p : Result (WorkerError F) (AssignOutcome F) × Database F)
      → IsAttempt io order_id pickup radius_km db p
      → booked id p.1 ≤ booked id db
  attempt-booked io order_id pickup r db id (ok (assigned e), t) a =
      Chose-booked io order_id pickup r db t e id a
  attempt-booked io order_id pickup r db id (ok already_handled, t) a = rw (a.1) (omega arith)
  attempt-booked io order_id pickup r db id (ok no_driver_available, t) a = rw (a.2) (omega arith)
  attempt-booked io order_id pickup r db id (err (sql x), t) (inl e) = rw e (omega arith)
  attempt-booked io order_id pickup r db id (err (sql x), t) (inr (_, (e, a))) =
      Chose-booked io order_id pickup r db t e id a
  attempt-booked io order_id pickup r db id (err _, t) a = absurd a

module _ {F : Type 0} ⦃f : Float F⦄ (codec : Codec F) (sqs : OrderEventPublisher)
    (publisher : DispatchEventPublisher) (cfg : HandlerConfig) where
  -- How often the driver was registered, or reported with no status or one that is not 'busy' or
  -- 'offline'.
  abbrev offers_in : {s t : State F} → Uuid → Step codec sqs publisher cfg s t → ℕ
  offers_in id (creates io body e) = 0
  offers_in id (registers io body e) = says_free (get_or body.id io.new_id) id available
  offers_in id (reports io k body e) = says_free k id (requested_status body.status)
  offers_in id (delivers io m handle there e) = 0

  abbrev pub offers : {s t : State F} → Uuid → Reach codec sqs publisher cfg s t → ℕ
  offers id here = 0
  offers id (next r st) = offers id r + offers_in id st

  Step-booked :
      {s t : State F} (id : Uuid) (st : Step codec sqs publisher cfg s t)
      → IsSchema s.db
      → booked id t.db ≤ booked id s.db + offers_in id st
  Step-booked {s} id (creates io body e) schema =
      rw e (elim (create_order_db codec io body (api_of sqs s)) [
        | inl same ↦ rw same (omega arith)
        | inr new ↦ rw new (elim (insert_effect io.insert io.stored_at (requested io body) s.db) [
          | inl h ↦ rw h (omega arith)
          | inr h ↦ rw h (omega arith)
        ])
      ])
  Step-booked {s} id (registers io body e) schema =
      rw e (elim (register_driver_db io body (api_of sqs s)) [
        | inl same ↦ rw same (omega arith)
        | inr new ↦ rw new (
            upsert_driver-booked io.upsert io.now (get_or body.id io.new_id) body.name
              (to_point body.location) available s.db id schema.driver_keys)
      ])
  Step-booked {s} id (reports io k body e) schema =
      rw e (elim (update_driver_location_db io k body (api_of sqs s)) [
        | inl same ↦ rw same (omega arith)
        | inr new ↦ rw new (
            upsert_driver-booked io.upsert io.now k "" (to_point body.location)
              (requested_status body.status) s.db id schema.driver_keys)
      ])
  Step-booked {s} id (delivers io m handle there e) schema =
      rw e (elim (handle_message_db codec io publisher cfg (delivery m handle) (world_of s)) [
        | inl same ↦ rw same (omega arith)
        | inr (event, new) ↦ rw new (
            omega (
              arith,
              attempt-booked io.assign event.order_id event.pickup cfg.match_radius_km s.db id
                  (assign_order io.assign event.order_id event.pickup cfg.match_radius_km s.db)
                  (assign_order-IsAttempt io.assign event.order_id event.pickup cfg.match_radius_km
                    s.db schema.order_keys),
            ))
      ])

  Reach-sum :
      {s t : State F} (id : Uuid)
      → IsSchema s.db
      → (r : Reach codec sqs publisher cfg s t)
      → IsSchema t.db × (booked id t.db ≤ booked id s.db + offers id r)
  Reach-sum id schema here = (schema, omega arith)
  Reach-sum id schema (next r st) =
      let (kept, sum) = Reach-sum id schema r in
      (
        Write-IsSchema (Step-Write codec sqs publisher cfg st kept) kept,
        omega (arith, sum, Step-booked id st kept),
      )

  -- From a database that keeps its constraints, in every history of the services, whatever fails:
  -- the orders of a driver at the end are at most those it had at the beginning, one more if its
  -- row said then that it is available, and one more for each time since that it was registered or
  -- reported its place with a status other than 'busy' and 'offline'.
  pub Reach-booked :
      {s t : State F} (id : Uuid)
      → IsSchema s.db
      → (r : Reach codec sqs publisher cfg s t)
      → count (of_driver id) t.db.assignments
        ≤ count (of_driver id) s.db.assignments + count (free_of id) s.db.drivers + offers id r
  Reach-booked id schema r = omega (arith, (Reach-sum id schema r).1)
