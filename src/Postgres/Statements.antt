-- ===== src/Postgres/Statements.antt =====
-- The statements that the program sends, as PostgreSQL reads them, and the table of
-- migrations/000001_create_tasks_table.up.sql. Timestamps are left out, but for whether `deleted_at`
-- is set; the rows are listed by descending id, as `ORDER BY id DESC` gives them.
use graph_code_challenge.Prelude.{ℕ, List, Bool}
use graph_code_challenge.Entity.{Task}

pub data Column : Type 0 where
  title_column description_column status_column assignee_column : Column

-- A number is that of a placeholder.
pub data Condition : Type 0 where
  is_live : Condition
  id_is id_below : ℕ → Condition
  column_is : Column → ℕ → Condition

pub data Statement : Type 0 where
  insert_task : Statement
  select_tasks : List Condition → Statement
  select_page : List Condition → ℕ → Statement
  update_tasks : List (Column × ℕ) → List Condition → Statement
  mark_deleted : List Condition → Statement
  count_tasks : List Condition → Statement

pub record Row : Type 0 where
  pub task : Task
  pub deleted : Bool

-- `next` is what the sequence of the ids gives next.
pub record Table : Type 0 where
  pub rows : List Row
  pub next : ℕ
