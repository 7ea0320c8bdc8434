-- ===== src/System.antt =====
-- The services together, over one database.
pub mod Writes
pub mod Keeps
pub mod Schema
pub mod Handlers
pub mod Run
pub mod Sound
pub mod Overlap
pub mod Lifecycle
pub mod Queue
pub mod Announce
pub mod Booked
