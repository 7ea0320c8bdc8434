-- ===== src/Store.antt =====
-- The PostgreSQL tables of migrations/20260101000001_init.sql, the clauses of the SQL statements
-- that the services send, and the constraints that the tables keep.
mod Rows
mod Schema
mod Constraints
mod Statement
pub use Rows.*
pub use Schema.*
pub use Constraints.*
pub use Statement.*
