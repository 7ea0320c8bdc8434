-- ===== src/Core.antt =====
-- crates/dispatch-core: the domain types, the events and the matching logic.
pub mod Model
pub mod Coordinates
pub mod Events
pub mod Codec
pub mod Json
pub mod Geo
