-- ===== src/Start.antt =====
-- The start of the three processes: their configuration, the connection to the database with its
-- migration, and what `main` hands to the rest.
pub mod Config
pub mod Migrate
pub mod Main
pub mod Ready
pub mod Agree
