-- ===== src/Postgres/Execution.antt =====
-- What PostgreSQL documents that each statement does to the table, and answers.
use graph_code_challenge.Entity.{Task}
use graph_code_challenge.Postgres.Statements.{
  Column, title_column, description_column, status_column, assignee_column, Condition, is_live,
  id_is, id_below, column_is, Statement, insert_task, select_tasks, select_page, update_tasks,
  mark_deleted, count_tasks, Row, Table,
}
use graph_code_challenge.Prelude.{
  pos_part, take, ◌==◌, ltb_ℤ, filterb, eqb_ℤ, ◌^◌, not, ◌&&◌, ltb, length, ◌∷◌, if◌then◌else◌, map,
  Bool, ℤ, pos, suc, zero, false, true, some, none, [], ℕ, List, String, Option,
}
use graph_code_challenge.Postgres.{Datum, varchar, bigint}

abbrev pub argument : ℕ → List Datum → Option Datum
argument n [] = none
argument zero (x ∷ xs) = none
argument (suc zero) (x ∷ xs) = some x
argument (suc (suc n)) (x ∷ xs) = argument (suc n) xs

abbrev text_argument : ℕ → List Datum → String
text_argument n args = elim (argument n args) [ some (varchar t) ↦ t | _ ↦ "" ]

abbrev pub int_argument : ℕ → List Datum → ℤ
int_argument n args = elim (argument n args) [ some (bigint i) ↦ i | _ ↦ pos 0 ]

abbrev column_of : Column → Task → String
column_of title_column t = t.title
column_of description_column t = t.description
column_of status_column t = t.status
column_of assignee_column t = t.assignee

abbrev with_column : Column → String → Task → Task
with_column title_column x t = record t { title = x }
with_column description_column x t = record t { description = x }
with_column status_column x t = record t { status = x }
with_column assignee_column x t = record t { assignee = x }

abbrev pub holds : List Datum → Row → Condition → Bool
holds args r is_live = not r.deleted
holds args r (id_is n) = eqb_ℤ r.task.id (int_argument n args)
holds args r (id_below n) = ltb_ℤ r.task.id (int_argument n args)
holds args r (column_is c n) = column_of c r.task == text_argument n args

abbrev pub all_hold : List Datum → List Condition → Row → Bool
all_hold args [] r = true
all_hold args (c ∷ cs) r = holds args r c && all_hold args cs r

abbrev pub assign : List Datum → List (Column × ℕ) → Task → Task
assign args [] t = t
assign args ((c, n) ∷ rest) t = assign args rest (with_column c (text_argument n args) t)

abbrev pub change : (Row → Bool) → (Row → Row) → List Row → List Row
change p f [] = []
change p f (r ∷ rs) = (if p r then f r else r) ∷ change p f rs

abbrev pub cells : Task → List Datum
cells t =
    bigint t.id
    ∷ varchar t.title
    ∷ varchar t.description
    ∷ varchar t.status
    ∷ varchar t.assignee
    ∷ []

-- The rows that a statement answers with, and the number of those it touched.
pub record Output : Type 0 where
  pub answers : List (List Datum)
  pub affected : ℕ

abbrev pub selected : List Row → Output
selected rs = record { answers = map (λ r. cells r.task) rs; affected = length rs }

abbrev pub inserted_row : List Datum → ℕ → Row
inserted_row args n = record {
  task = record {
    id = pos n;
    title = text_argument 1 args;
    description = text_argument 2 args;
    status = text_argument 3 args;
    assignee = text_argument 4 args;
  };
  deleted = false;
}

-- The sequence of a BIGSERIAL column ends at 2^63 - 1.
unfoldable pub execute : Statement → List Datum → Table → Option (Output × Table)
execute insert_task args t =
    if ltb t.next (2 ^ 63)
    then some (
      record { answers = (bigint (pos t.next) ∷ []) ∷ []; affected = 1 },
      record { rows = inserted_row args t.next ∷ t.rows; next = suc t.next },
    )
    else none
execute (select_tasks conditions) args t =
    some (selected (filterb (all_hold args conditions) t.rows), t)
execute (select_page conditions n) args t = some (
  selected (take (pos_part (int_argument n args)) (filterb (all_hold args conditions) t.rows)),
  t,
)
execute (update_tasks assignments conditions) args t =
    let apply = λ (r : Row). record r { task = assign args assignments r.task } in
    some (
      selected (map apply (filterb (all_hold args conditions) t.rows)),
      record t { rows = change (all_hold args conditions) apply t.rows },
    )
execute (mark_deleted conditions) args t =
    let delete = λ (r : Row). record r { deleted = true } in
    some (
      record { answers = []; affected = length (filterb (all_hold args conditions) t.rows) },
      record t { rows = change (all_hold args conditions) delete t.rows },
    )
execute (count_tasks conditions) args t = some (
  record {
    answers = (bigint (pos (length (filterb (all_hold args conditions) t.rows))) ∷ []) ∷ [];
    affected = 1;
  },
  t,
)
