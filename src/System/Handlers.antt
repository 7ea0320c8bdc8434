-- ===== src/System/Handlers.antt =====
-- Each handler makes one write, or none.
mod Api
mod Worker
pub use Api.*
pub use Worker.*
