-- ===== src/Worker/Handler.antt =====
-- services/dispatch-worker/src/main.rs: the handling of one message.
mod Defs
mod Parts
mod Acknowledge
mod Redelivery
mod Measures
mod Bus
mod Success
unfoldable pub use Defs.*
pub use Parts.*
pub use Acknowledge.*
pub use Redelivery.*
pub use Measures.*
pub use Bus.*
pub use Success.*
