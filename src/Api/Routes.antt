-- ===== src/Api/Routes.antt =====
-- services/dispatch-api/src/routes.rs and state.rs: the handlers, over the database and the log of
-- what SQS accepted. What a handler takes from outside (clocks, fresh ids, the ends of its calls) is
-- its `io`.
mod Defs
mod Create
mod Drivers
mod Queries
mod Reads
unfoldable pub use Defs.*
pub use Create.*
pub use Drivers.*
pub use Queries.*
pub use Reads.*
