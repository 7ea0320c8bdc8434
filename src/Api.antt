-- ===== src/Api.antt =====
-- services/dispatch-api: the HTTP service that takes orders and keeps the drivers.
pub mod Db
pub mod Error
pub mod Sqs
pub mod Routes
