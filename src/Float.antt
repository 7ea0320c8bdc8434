-- ===== src/Float.antt =====
-- `f64`: its operations and laws, and a concrete type that meets them.
mod Defs
pub mod Sample
pub use Defs.*
