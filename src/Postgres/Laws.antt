-- ===== src/Postgres/Laws.antt =====
-- What PostgreSQL documents of the statements that the program sends, and pgx of their answers. The
-- hypotheses are on the statements' texts: one that is sent with arguments that fit its placeholders
-- does what `execute` says, or is refused and leaves the rows, though the sequence of ids may have moved
-- on; an error may also stand for an answer that was lost after the statement was carried out. No other
-- client writes.
use graph_code_challenge.Postgres.Texts.{render}
use graph_code_challenge.Postgres.Execution.{execute, Output}
use graph_code_challenge.Postgres.Placeholders.{fits}
use graph_code_challenge.Errors.{
  validation, no_rows, not_found, Result, is, Error, sentinel, err, ok,
}
use graph_code_challenge.Postgres.Statements.{
  Column, title_column, description_column, status_column, assignee_column, Condition, is_live,
  id_is, id_below, column_is, Statement, insert_task, select_tasks, select_page, update_tasks,
  mark_deleted, count_tasks, Table,
}
use graph_code_challenge.Prelude.{
  ◌^◌, ◌≤◌, take, map, ◌≡◌, ◌∷◌, ◌+◌, false, true, some, none, [], List, Bool, Option, ℕ, ◌++◌,
}
use graph_code_challenge.Postgres.{Pool, Rows, Datum}

-- The statements with their conditions and assignments in the order in which the program writes them,
-- each placeholder with its number. A Boolean says whether that filter or field is given.
abbrev pub count_if : Bool → ℕ
count_if true = 1
count_if false = 0

abbrev pub keep_if {ℓ} : {A : Type ℓ} → Bool → A → List A
keep_if true a = a ∷ []
keep_if false a = []

abbrev pub get_statement : Statement
get_statement = select_tasks (id_is 1 ∷ is_live ∷ [])

abbrev pub filters : Bool → Bool → Bool → List Condition
filters s a c =
    let by_assignee = 1 + count_if s in
    let below = by_assignee + count_if a in
    is_live ∷ keep_if s (column_is status_column 1)
    ++ keep_if a (column_is assignee_column by_assignee)
    ++ keep_if c (id_below below)

abbrev pub list_statement : Bool → Bool → Bool → Statement
list_statement s a c = select_page (filters s a c) (1 + count_if s + count_if a + count_if c)

abbrev pub assignments : Bool → Bool → Bool → Bool → List (Column × ℕ)
assignments t d s a =
    let description = 2 + count_if t in
    let with_status = description + count_if d in
    let assigned = with_status + count_if s in
    keep_if t (title_column, 2)
    ++ keep_if d (description_column, description)
    ++ keep_if s (status_column, with_status)
    ++ keep_if a (assignee_column, assigned)

abbrev pub update_statement : Bool → Bool → Bool → Bool → Statement
update_statement t d s a = update_tasks (assignments t d s a) (id_is 1 ∷ is_live ∷ [])

abbrev pub delete_statement : Statement
delete_statement = mark_deleted (id_is 1 ∷ is_live ∷ [])

abbrev pub count_statement : Statement
count_statement = count_tasks (is_live ∷ [])

pub data IsSent : Statement → Type 0 where
  sent_insert : IsSent insert_task
  sent_get : IsSent get_statement
  sent_list : (s a c : Bool) → IsSent (list_statement s a c)
  sent_update : (t d s a : Bool) → IsSent (update_statement t d s a)
  sent_delete : IsSent delete_statement
  sent_count : IsSent count_statement

-- An error of the driver or the server: none of the program's own, and not "no rows".
pub record IsDriver (e : Error) : Type 0 where
  pub unlike_not_found : is e not_found ≡ false
  pub unlike_validation : is e validation ≡ false
  pub unlike_no_rows : is e no_rows ≡ false

-- A statement that is refused is undone, but for what it drew from the sequence of ids, which stays in
-- its range.
pub record Leaves (before after : Table) : Type 0 where
  pub rows_kept : after.rows ≡ before.rows
  pub not_lower : before.next ≤ after.next
  pub in_range : before.next ≤ 2 ^ 63 → after.next ≤ 2 ^ 63

-- How a call that a statement's output decides can end.
pub data Outcome {A : Type 0} (read : Output → Result A) (expected : Option (Output × Table))
    (before : Table) (r : Result A) (after : Table) : Type 0 where
  carried_out :
      (out : Output)
      → expected ≡ some (out, after)
      → r ≡ read out
      → Outcome read expected before r after
  refused :
      (e : Error)
      → r ≡ err e
      → IsDriver e
      → Leaves before after
      → Outcome read expected before r after
  lost :
      (out : Output) (e : Error)
      → expected ≡ some (out, after)
      → r ≡ err e
      → IsDriver e
      → Outcome read expected before r after

-- The statement was carried out, and its answer did not arrive.
abbrev pub IsLost :
    {A : Type 0} {read : Output → Result A} {expected : Option (Output × Table)} {before : Table}
    {r : Result A} {after : Table}
    → Outcome read expected before r after
    → Type 0
IsLost (lost out e ran failed driver) = Unit
IsLost _ = ⊥

-- The first row, or `pgx.ErrNoRows`.
abbrev pub first_row : Output → Result (List Datum)
first_row out = elim out.answers [ [] ↦ err (sentinel no_rows) | row ∷ _ ↦ ok row ]

abbrev pub affected_rows : Output → Result ℕ
affected_rows out = ok out.affected

-- The stream of the rows ends early with a driver's error, or not at all.
pub data Streams (out : Output) (rows : Rows) : Type 0 where
  streamed : rows.scanned ≡ map ok out.answers → rows.failure ≡ none → Streams out rows
  broken :
      (n : ℕ) (e : Error)
      → rows.scanned ≡ map ok (take n out.answers)
      → rows.failure ≡ some e
      → IsDriver e
      → Streams out rows

pub data QueryOutcome (expected : Option (Output × Table)) (before : Table) (r : Result Rows)
    (after : Table) : Type 0 where
  opened :
      (out : Output) (rows : Rows)
      → expected ≡ some (out, after)
      → r ≡ ok rows
      → Streams out rows
      → QueryOutcome expected before r after
  not_opened :
      (e : Error)
      → r ≡ err e
      → IsDriver e
      → Leaves before after
      → QueryOutcome expected before r after

pub record PostgresLaws (pool : Pool) : Type 0 where
  pub table : pool.State → Table
  pub query_row_law :
      (st : Statement) (args : List Datum) (s : pool.State)
      → IsSent st
      → fits st args ≡ true
      → Outcome first_row
          (execute st args (table s))
          (table s)
          (pool.query_row (render st) args s).0
          (table (pool.query_row (render st) args s).1)
  pub query_law :
      (st : Statement) (args : List Datum) (s : pool.State)
      → IsSent st
      → fits st args ≡ true
      → QueryOutcome
          (execute st args (table s))
          (table s)
          (pool.query (render st) args s).0
          (table (pool.query (render st) args s).1)
  pub exec_law :
      (st : Statement) (args : List Datum) (s : pool.State)
      → IsSent st
      → fits st args ≡ true
      → Outcome affected_rows
          (execute st args (table s))
          (table s)
          (pool.exec (render st) args s).0
          (table (pool.exec (render st) args s).1)

-- A connection that does not break between a commit and its answer. This is not documented of
-- PostgreSQL: a theorem that relies on it says so.
pub record KeepsAnswers (pool : Pool) (laws : PostgresLaws pool) : Type 0 where
  pub query_row_answered :
      (st : Statement) (args : List Datum) (s : pool.State) (sent : IsSent st)
      (fit : fits st args ≡ true)
      → ¬ IsLost (laws.query_row_law st args s sent fit)
  pub exec_answered :
      (st : Statement) (args : List Datum) (s : pool.State) (sent : IsSent st)
      (fit : fits st args ≡ true)
      → ¬ IsLost (laws.exec_law st args s sent fit)
