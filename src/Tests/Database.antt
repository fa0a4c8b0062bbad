-- ===== src/Tests/Database.antt =====
-- A server that keeps its table in memory and knows the statements that the program sends by their
-- texts.
use graph_code_challenge.Postgres.{Datum, Rows, Pool}
use graph_code_challenge.Postgres.Execution.{execute, Output}
use graph_code_challenge.Errors.{Result, is, plain, err, ok}
use graph_code_challenge.Postgres.Texts.{render}
use graph_code_challenge.Postgres.Laws.{
  KeepsAnswers, IsLost, Leaves, affected_rows, Outcome, QueryOutcome, first_row, IsDriver,
  PostgresLaws, sent_insert, sent_get, sent_list, sent_update, sent_delete, sent_count, carried_out,
  refused, opened, not_opened, streamed, sent_update, sent_list, count_statement, IsSent,
  delete_statement, get_statement, update_statement, list_statement,
}
use graph_code_challenge.Prelude.{
  arith, map, ◌++◌, ◌≡◌, ◌==◌, join, if◌then◌else◌, decimal, ◌∷◌, refl, false, true, some, none, [],
  List, Option, String, Bool,
}
use graph_code_challenge.Postgres.Statements.{Table, Statement, insert_task}

abbrev list_statements : List Statement
list_statements =
    list_statement true true true
    ∷ list_statement true true false
    ∷ list_statement true false true
    ∷ list_statement true false false
    ∷ list_statement false true true
    ∷ list_statement false true false
    ∷ list_statement false false true
    ∷ list_statement false false false
    ∷ []

abbrev updates_with : Bool → Bool → List Statement
updates_with t d =
    update_statement t d true true
    ∷ update_statement t d true false
    ∷ update_statement t d false true
    ∷ update_statement t d false false
    ∷ []

abbrev statements : List Statement
statements =
    insert_task
    ∷ get_statement
    ∷ delete_statement
    ∷ count_statement
    ∷ (list_statements
        ++ updates_with true true
        ++ updates_with true false
        ++ updates_with false true
        ++ updates_with false false)

abbrev named : List Statement → String → Option Statement
named [] t = none
named (st ∷ sts) t = if render st == t then some st else named sts t

named-sent : (st : Statement) → IsSent st → named statements (render st) ≡ some st
unfolding render decimal join
named-sent st sent_insert = refl
named-sent st sent_get = refl
named-sent st sent_delete = refl
named-sent st sent_count = refl
named-sent st (sent_list true true true) = refl
named-sent st (sent_list true true false) = refl
named-sent st (sent_list true false true) = refl
named-sent st (sent_list true false false) = refl
named-sent st (sent_list false true true) = refl
named-sent st (sent_list false true false) = refl
named-sent st (sent_list false false true) = refl
named-sent st (sent_list false false false) = refl
named-sent st (sent_update true true true true) = refl
named-sent st (sent_update true true true false) = refl
named-sent st (sent_update true true false true) = refl
named-sent st (sent_update true true false false) = refl
named-sent st (sent_update true false true true) = refl
named-sent st (sent_update true false true false) = refl
named-sent st (sent_update true false false true) = refl
named-sent st (sent_update true false false false) = refl
named-sent st (sent_update false true true true) = refl
named-sent st (sent_update false true true false) = refl
named-sent st (sent_update false true false true) = refl
named-sent st (sent_update false true false false) = refl
named-sent st (sent_update false false true true) = refl
named-sent st (sent_update false false true false) = refl
named-sent st (sent_update false false false true) = refl
named-sent st (sent_update false false false false) = refl

abbrev carry_out {ℓ} :
    {A : Type ℓ} → (Output → Result A) → Option (Output × Table) → Table → Result A × Table
carry_out read none t = (err (plain "ERROR: the statement cannot be carried out"), t)
carry_out read (some (out, t')) t = (read out, t')

abbrev run_text {ℓ} :
    {A : Type ℓ} → (Output → Result A) → String → List Datum → Table → Result A × Table
run_text read text args t = elim (named statements text) [
  | none ↦ (err (plain "ERROR: syntax error"), t)
  | some st ↦ carry_out read (execute st args t) t
]

abbrev whole_rows : Output → Result Rows
whole_rows out = ok (record { scanned = map ok out.answers; failure = none })

abbrev pub database : Pool
database = record {
  State = Table;
  query_row = run_text first_row;
  query = run_text whole_rows;
  exec = run_text affected_rows;
}

syntax-IsDriver : IsDriver (plain "ERROR: the statement cannot be carried out")
unfolding is
syntax-IsDriver = record {
  unlike_not_found = refl;
  unlike_validation = refl;
  unlike_no_rows = refl;
}

Leaves-refl : (t : Table) → Leaves t t
Leaves-refl t = record { rows_kept = refl; not_lower = omega arith; in_range = λ h. h }

pub carry_out-Outcome :
    {A : Type 0} (read : Output → Result A) (e : Option (Output × Table)) (t : Table)
    → (o : Outcome read e t (carry_out read e t).0 (carry_out read e t).1) × ¬ IsLost o
carry_out-Outcome read none t = (
  refused (plain "ERROR: the statement cannot be carried out") refl syntax-IsDriver (Leaves-refl t),
  λ x. x,
)
carry_out-Outcome read (some (out, t')) t = (carried_out out refl refl, λ x. x)

pub carry_out-QueryOutcome :
    (e : Option (Output × Table)) (t : Table)
    → QueryOutcome e t (carry_out whole_rows e t).0 (carry_out whole_rows e t).1
carry_out-QueryOutcome none t =
    not_opened (plain "ERROR: the statement cannot be carried out") refl syntax-IsDriver
      (Leaves-refl t)
carry_out-QueryOutcome (some (out, t')) t =
    opened out (record { scanned = map ok out.answers; failure = none }) refl refl
      (streamed refl refl)

pub run_text-sent :
    {A : Type 0} (read : Output → Result A) (st : Statement) (args : List Datum) (t : Table)
    → IsSent st
    → run_text read (render st) args t ≡ carry_out read (execute st args t) t
run_text-sent read st args t sent = rw (named-sent st sent, run_text) refl

pub run_text-Outcome :
    {A : Type 0} (read : Output → Result A) (st : Statement) (args : List Datum) (t : Table)
    → IsSent st
    → (o : Outcome read
        (execute st args t)
        t
        (run_text read (render st) args t).0
        (run_text read (render st) args t).1)
      × ¬ IsLost o
run_text-Outcome read st args t sent =
    rw (run_text-sent read st args t sent) (carry_out-Outcome read (execute st args t) t)

unfoldable pub database_laws : PostgresLaws database
database_laws = record {
  table = λ t. t;
  query_row_law = λ st args t sent fit. (run_text-Outcome first_row st args t sent).0;
  query_law = λ st args t sent fit.
      rw (run_text-sent whole_rows st args t sent) (carry_out-QueryOutcome (execute st args t) t);
  exec_law = λ st args t sent fit. (run_text-Outcome affected_rows st args t sent).0;
}

pub database-KeepsAnswers : KeepsAnswers database database_laws
unfolding database_laws
database-KeepsAnswers = record {
  query_row_answered = λ st args t sent fit. (run_text-Outcome first_row st args t sent).1;
  exec_answered = λ st args t sent fit. (run_text-Outcome affected_rows st args t sent).1;
}
