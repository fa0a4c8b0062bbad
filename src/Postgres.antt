-- ===== src/Postgres.antt =====
-- PostgreSQL and pgx, which the program calls: a parameter of the model. A statement is a text with
-- numbered placeholders and a list of arguments; what PostgreSQL documents of the statements that
-- the program sends is in the module Laws. The adapter itself, internal/repository/postgres/postgrestask/task.go,
-- is in the module Adapter.
pub mod Statements
pub mod Texts
pub mod Execution
pub mod Placeholders
pub mod Laws
pub mod Adapter
pub mod Built
pub mod Lives
pub mod Scans
pub mod Reads
pub mod Patches
pub mod Sequence
pub mod Settles
pub mod Creates
pub mod Settled
pub mod Writes
pub mod Refinement
use graph_code_challenge.Prelude.{Option, ℤ, String, ℕ, List}
use graph_code_challenge.Errors.{Error, Result}

-- An argument of a statement, and a value in a row of its answer.
pub data Datum : Type 0 where
  varchar : String → Datum
  bigint : ℤ → Datum

-- What `rows.Next` goes through, each row with what `Scan` reads or fails with, and what `rows.Err`
-- answers at the end.
pub record Rows : Type 0 where
  pub scanned : List (Result (List Datum))
  pub failure : Option Error

-- `pgxpool.Pool`. The answer of `QueryRow` is given as its `Scan` reads it.
pub record Pool : Type 1 where
  pub State : Type 0
  pub query_row : String → List Datum → State → Result (List Datum) × State
  pub query : String → List Datum → State → Result Rows × State
  pub exec : String → List Datum → State → Result ℕ × State
