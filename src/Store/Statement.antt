-- ===== src/Store/Statement.antt =====
-- A statement that is sent to the database, and what can come back.
use velocity_dispatch.Prelude.{Result, Outcome, attempt}

-- `sqlx::Error`: the server is not reached, a constraint is violated, or `fetch_one` finds no row.
pub data SqlError : Type 0 where
  unreachable violation row_not_found : SqlError

-- From the tables before it and what the server makes of it.
abbrev pub execute : {S A : Type 0} → Outcome → S → Result SqlError A × S → Result SqlError A × S
execute io s r = attempt io unreachable s r
