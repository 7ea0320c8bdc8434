-- ===== src/Lib.antt =====
-- velocity-dispatch: orders are taken over HTTP, matched to the nearest free driver by workers, and
-- announced to the customer.
--
-- The parts, and the files that model them:
-- - crates/dispatch-core: Core/Model (model.rs, error.rs), Core/Coordinates (GeoPoint::new),
--   Core/Events (events.rs), Core/Geo with its children (geo.rs: haversine_km, nearest_driver).
-- - migrations: Store/Schema (the tables) and Store/Constraints (keys, checks, references). A table
--   is the list of its rows; Store/Rows has UPDATE … WHERE and the lookup by primary key.
-- - services/dispatch-api: Api/Db (db.rs), Api/Error (error.rs), Api/Sqs (sqs.rs) and Api/Routes
--   (routes.rs, state.rs), one function for each handler.
-- - services/dispatch-worker: Worker/Db (db.rs), Worker/Matching (matching.rs: assign_order),
--   Worker/Eventbridge (eventbridge.rs), Worker/Metrics (metrics.rs, with a reader of the metrics in
--   its line), Worker/Handler (main.rs: handle_message, delete_message) and Worker/Poll (main.rs:
--   run_poll_loop, as a step relation).
-- - services/dispatch-notify-lambda: Lambda/Defs (main.rs, notify.rs, audit.rs).
-- - the services together: System/Run has the histories of requests and deliveries, in which the API
--   and the workers share the database, and the messages that SQS accepted from the API are
--   delivered to workers, each any number of times, in any order, with any failures.
--   System/Overlap takes the transactions of the workers apart into their statements, which overlap
--   in any order under the row locks of PostgreSQL. System/Lifecycle is the abstract view of the
--   orders: unknown, waiting, settled. System/Queue adds the queue of infra/terraform/sqs.tf: a
--   message stays until it is deleted or given up after maxReceiveCount receptions.
--   System/Overlap/Publish adds to the statements what the tasks publish after their commits.
--   System/Announce adds the bus of
--   infra/terraform/eventbridge.tf and the lambda: each event that the rule matches is delivered,
--   any number of times and in any order. System/Booked counts the orders of a driver, in the
--   histories of System/Run and of System/Overlap.
-- - the processes: Start/Config (the two config.rs), Start/Migrate (connect of the two db.rs, with
--   the migration), Start/Main (the main functions) and Start/Ready (starts in any order).
-- Prelude has the shared types and lemmas, Float the interface of floats, Tests the theorems on
-- concrete inputs.
--
-- How the code is read:
-- - f64 is any type with the operations of the interface Float. The laws that a proof needs are
--   named: IsOrdered (<= and total_cmp), IsSigned (signs in haversine_km),
--   IsExactAtZero (haversine_km of a point to itself). Float/Sample meets them.
-- - A Uuid is its 128-bit value, a DateTime its nanoseconds since the epoch. A TIMESTAMPTZ column is
--   coarser: what it keeps of an order's time is a parameter (stored_at).
-- - serde_json on messages is the interface Codec; its law IsFaithful is that the text of an order
--   at points on Earth parses to the same id and time. Core/Codec/Sample meets it.
-- - The lambda's runtime decodes the detail of an event. Its decoder is a parameter (EventDecoder),
--   with the law Decodes: from the text that the codec printed it finds the same three ids.
-- - A call of the database or of a service of AWS ends in one of three ways (Outcome): done; failed,
--   with no effect; or lost, with its effect but an error for the caller. Requests that SQS,
--   EventBridge and SNS accept are kept in logs, the objects of S3 by their keys.
-- - A function with `?` returns its result and the state after it, also after an error (Result and
--   the do notation of Prelude/Actions).
-- - The transaction of assign_order works on a copy of the tables, which commit makes the database;
--   a rollback or an error drops it. The rows that other transactions hold, which SKIP LOCKED leaves
--   out, are a parameter (locked). In System/Run a delivery is one step; in System/Overlap each
--   statement is one, a statement sees what is committed and what its own transaction wrote (READ
--   COMMITTED), and waits while another transaction holds the row or the key.
-- - Clocks, fresh ids and the ends of the calls are fields of the `io` of each handler; fresh ids
--   are not assumed to be fresh, unless a theorem says so. No function needs fuel.
--
-- Not modelled: logging (telemetry.rs, init_telemetry), the middlewares, the routing and the decoding of
-- requests by actix-web, connections of the pool beyond its options, the
-- expiry of messages, the retry limits of the rule's target, the tests in geo.rs, and the other files
-- of infra, scripts and load tests. The semaphore of the poll loop is the number of its free permits;
-- the greatest number that tokio accepts is a field of StartIo. In Worker/Poll the handling of a
-- message is one step.
pub mod Prelude
pub mod Float
pub mod Core
pub mod Store
pub mod Api
pub mod Worker
pub mod Lambda
pub mod Start
pub mod System
pub mod Tests
