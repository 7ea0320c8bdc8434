-- ===== src/Worker.antt =====
-- services/dispatch-worker: the consumer that matches orders to drivers.
pub mod Db
pub mod Matching
pub mod Metrics
pub mod Eventbridge
pub mod Handler
pub mod Poll
