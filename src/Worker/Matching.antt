-- ===== src/Worker/Matching.antt =====
-- services/dispatch-worker/src/matching.rs: one order, one driver, one transaction.
mod Defs
pub mod Claim
mod View
mod Assign
mod Progress
mod Best
mod Locks
unfoldable pub use Defs.*
pub use View.*
pub use Assign.*
pub use Progress.*
pub use Best.*
unfoldable pub use Locks.*
