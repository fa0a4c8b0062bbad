-- ===== src/Postgres/Settles.antt =====
-- How a write of the adapter can end.
use graph_code_challenge.Repository.Tasks.{insert, find}
use graph_code_challenge.Entity.{Task}
use graph_code_challenge.Errors.{Error, err, Result}
use graph_code_challenge.Prelude.{none, ◌≤ℤ◌, ◌≡◌, pos, List, ℤ}
use graph_code_challenge.Repository.Spec.{IsInternal, Writes, Creates}

-- A write does what the table's operation does, or fails internally: it has then left the table, or done
-- to it what the operation does, and the answer is lost.
pub data Settles {A : Type 0} (expected : Result A × List Task) (before : List Task) (r : Result A)
    (after : List Task) : Type 0 where
  settled : Writes expected before r after → Settles expected before r after
  unanswered :
      (e : Error) → r ≡ err e → IsInternal e → after ≡ expected.1 → Settles expected before r after

-- The same of a creation.
pub data SettlesNew (task : Task) (before : List Task) (r : Result Task) (after : List Task)
    : Type 0 where
  settled : Creates task before r after → SettlesNew task before r after
  unanswered :
      (id : ℤ) (e : Error)
      → pos 1 ≤ℤ id
      → find id before ≡ none
      → r ≡ err e
      → IsInternal e
      → after ≡ insert (record task { id = id }) before
      → SettlesNew task before r after
