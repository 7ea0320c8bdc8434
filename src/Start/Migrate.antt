-- ===== src/Start/Migrate.antt =====
-- `connect` of the two db.rs, and the one migration. The migrator of sqlx runs a migration once: it
-- takes a lock, and notes in the database that the file is applied, with its effect or not at all.
use velocity_dispatch.Prelude.{
  ℕ, Bool, true, List, [], String, Option, none, some, Result, ok, Outcome, ◌>>◌, return,
  if◌then◌else◌,
}
use velocity_dispatch.Store.{DriverRow, OrderRow, AssignmentRow, Database, SqlError, execute}

-- A database server: the tables that exist, and whether the migration is noted as applied.
pub record Server (F : Type 0) : Type 0 where
  pub applied : Bool
  pub drivers : Option (List (DriverRow F))
  pub orders : Option (List (OrderRow F))
  pub assignments : Option (List (AssignmentRow F))

pub record PoolOptions : Type 0 where
  pub max_connections : ℕ
  pub acquire_timeout_secs : ℕ
  pub url : String

-- How the first connection and the migration end.
pub record ConnectIo : Type 0 where
  pub connect : Outcome
  pub migrate : Outcome

abbrev pub pool_options : ℕ → String → PoolOptions
pool_options max_connections url = record {
  max_connections = max_connections;
  acquire_timeout_secs = 3;
  url = url;
}

-- `CREATE TABLE IF NOT EXISTS`
abbrev pub create_if_missing {ℓ} : {R : Type ℓ} → Option (List R) → Option (List R)
create_if_missing none = some []
create_if_missing (some rows) = some rows

module _ {F : Type 0} where
  abbrev pub init_sql : Server F → Server F
  init_sql s = record {
    applied = true;
    drivers = create_if_missing s.drivers;
    orders = create_if_missing s.orders;
    assignments = create_if_missing s.assignments;
  }

  unfoldable pub migrate : Outcome → Server F → Result SqlError (Unit {0}) × Server F
  migrate io s = execute io s (ok tt, if s.applied then s else init_sql s)

  unfoldable pub connect :
      ConnectIo → ℕ → String → Server F → Result SqlError PoolOptions × Server F
  connect io max_connections url = do
    λ s. execute io.connect s (ok tt, s)
    migrate io.migrate
    return (pool_options max_connections url)

  -- The tables, if all three exist.
  abbrev pub tables :
      Option (List (DriverRow F))
      → Option (List (OrderRow F))
      → Option (List (AssignmentRow F))
      → Option (Database F)
  tables (some ds) (some os) (some as') =
      some (record { drivers = ds; orders = os; assignments = as' })
  tables _ _ _ = none

  abbrev pub database_of : Server F → Option (Database F)
  database_of s = tables s.drivers s.orders s.assignments
