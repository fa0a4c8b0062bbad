-- ===== src/Postgres/Texts.antt =====
-- The texts of the statements.
use Prim.Native.String.{◌++◌}
use graph_code_challenge.Postgres.Statements.{
  Column, title_column, description_column, status_column, assignee_column, Condition, is_live,
  id_is, id_below, column_is, Statement, insert_task, select_tasks, select_page, update_tasks,
  mark_deleted, count_tasks,
}
use graph_code_challenge.Prelude.{◌∷◌, map, join, decimal, ℕ, List, String}

abbrev column_name : Column → String
column_name title_column = "title"
column_name description_column = "description"
column_name status_column = "status"
column_name assignee_column = "assignee"

abbrev placeholder : ℕ → String
placeholder n = "$" ++ decimal n

abbrev condition_text : Condition → String
condition_text is_live = "deleted_at IS NULL"
condition_text (id_is n) = "id = " ++ placeholder n
condition_text (id_below n) = "id < " ++ placeholder n
condition_text (column_is c n) = column_name c ++ " = " ++ placeholder n

abbrev where_text : List Condition → String
where_text conditions = " WHERE " ++ join (map condition_text conditions) " AND "

abbrev assignment_text : Column × ℕ → String
assignment_text (c, n) = column_name c ++ " = " ++ placeholder n

abbrev columns_text : String
columns_text = "id, title, description, status, assignee"

-- The text of a statement.
unfoldable pub render : Statement → String
unfolding decimal join
render insert_task =
    "INSERT INTO tasks (title, description, status, assignee)\n\t\tVALUES ($1, $2, $3, $4)\n\t\tRETURNING id"
render (select_tasks conditions) =
    "SELECT " ++ columns_text ++ " FROM tasks" ++ where_text conditions
render (select_page conditions n) =
    "SELECT "
    ++ columns_text
    ++ " FROM tasks"
    ++ where_text conditions
    ++ " ORDER BY id DESC LIMIT "
    ++ placeholder n
render (update_tasks assignments conditions) =
    "UPDATE tasks SET "
    ++ join ("updated_at = now()" ∷ map assignment_text assignments) ", "
    ++ where_text conditions
    ++ " RETURNING "
    ++ columns_text
render (mark_deleted conditions) = "UPDATE tasks SET deleted_at = now()" ++ where_text conditions
render (count_tasks conditions) = "SELECT count(id) FROM tasks" ++ where_text conditions
