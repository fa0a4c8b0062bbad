-- ===== src/Postgres/Adapter.antt =====
-- internal/repository/postgres/postgrestask/task.go: the texts of the queries with their arguments,
-- and the six operations over a pool.
use graph_code_challenge.Exec.{Exec}
use graph_code_challenge.Param.{UpdateTaskRequest, ListTasksRequest}
use graph_code_challenge.Entity.{err_task_not_found, Task}
use graph_code_challenge.Repository.{Repository}
use graph_code_challenge.Errors.{
  no_rows, Error, map_ok, is, wrap_error, Result, plain, wrapped, err, ok,
}
use graph_code_challenge.Prelude.{
  not, Bool, String, Option, ℕ, List, length, ltb_ℤ, ◌==◌, if◌then◌else◌, ◌++◌, ◌∷◌, decimal, ℤ,
  sprintf, pos, suc, zero, some, none, [],
}
use Prim.Native.String as Text
use graph_code_challenge.Postgres.{Datum, varchar, bigint, Rows, Pool}

-- The `query` and `args` that `List` and `Update` build up.
pub record Built : Type 0 where
  pub query : String
  pub args : List Datum

-- `args = append(args, value)`, then `fmt.Fprintf(&query, format, len(args))`.
abbrev pub add : String → Datum → Built → Built
add format value b =
    let args = b.args ++ (value ∷ []) in
    record { query = Text.◌++◌ b.query (sprintf format (decimal (length args) ∷ [])); args = args }

-- `WriteString`
abbrev pub write : String → Built → Built
write t b = record b { query = Text.◌++◌ b.query t }

abbrev pub add_if : Bool → String → Datum → Built → Built
add_if given format value b = if given then add format value b else b

abbrev pub add_some : String → Option String → Built → Built
add_some format none b = b
add_some format (some value) b = add format (varchar value) b

unfoldable pub insert_query : String
insert_query =
    "INSERT INTO tasks (title, description, status, assignee)\n\t\tVALUES ($1, $2, $3, $4)\n\t\tRETURNING id"

unfoldable pub get_query : String
get_query =
    "SELECT id, title, description, status, assignee FROM tasks WHERE id = $1 AND deleted_at IS NULL"

abbrev pub list_base : Built
list_base = record {
  query = "SELECT id, title, description, status, assignee FROM tasks WHERE deleted_at IS NULL";
  args = [];
}

unfoldable pub list_query : ListTasksRequest → Built
unfolding sprintf decimal
list_query req =
    let by_status =
      add_if (not (req.status == "")) " AND status = $%d" (varchar req.status) list_base in
    let by_assignee =
      add_if (not (req.assignee == "")) " AND assignee = $%d" (varchar req.assignee) by_status in
    let below = add_if (ltb_ℤ (pos 0) req.cursor) " AND id < $%d" (bigint req.cursor) by_assignee in
    add " ORDER BY id DESC LIMIT $%d" (bigint req.limit) below

unfoldable pub update_query : UpdateTaskRequest → Built
unfolding sprintf decimal
update_query req =
    let base : Built = record {
      query = "UPDATE tasks SET updated_at = now()";
      args = bigint req.id ∷ [];
    } in
    let titled = add_some ", title = $%d" req.title base in
    let described = add_some ", description = $%d" req.description titled in
    let with_status = add_some ", status = $%d" req.status described in
    let assigned = add_some ", assignee = $%d" req.assignee with_status in
    write " WHERE id = $1 AND deleted_at IS NULL RETURNING id, title, description, status, assignee"
      assigned

unfoldable pub delete_query : String
delete_query = "UPDATE tasks SET deleted_at = now() WHERE id = $1 AND deleted_at IS NULL"

unfoldable pub count_query : String
count_query = "SELECT count(id) FROM tasks WHERE deleted_at IS NULL"

-- `row.Scan(&…)` of a 64-bit integer; pgx refuses other columns.
abbrev pub scan_int : Result (List Datum) → Result ℤ
scan_int (ok (bigint i ∷ [])) = ok i
scan_int (ok _) = err (plain "can't scan into dest")
scan_int (err e) = err e

abbrev pub scan_task : Result (List Datum) → Result Task
scan_task (ok (bigint i ∷ varchar t ∷ varchar d ∷ varchar s ∷ varchar a ∷ [])) =
    ok (record { id = i; title = t; description = d; status = s; assignee = a })
scan_task (ok _) = err (plain "can't scan into dest")
scan_task (err e) = err e

-- `for rows.Next() { … }`, then `rows.Err()`.
abbrev pub scan_rows : List (Result (List Datum)) → Option Error → Result (List Task)
scan_rows [] none = ok []
scan_rows [] (some e) = err (wrapped "postgrestask: list rows: " e)
scan_rows (row ∷ rows) failure = elim (scan_task row) [
  | err e ↦ err (wrapped "postgrestask: list scan: " e)
  | ok task ↦ map_ok (λ (tasks : List Task). task ∷ tasks) (scan_rows rows failure)
]

-- `pgx.ErrNoRows` becomes `entity.ErrTaskNotFound`; any other error is wrapped.
abbrev pub or_not_found : String → Result Task → Result Task
or_not_found p (ok task) = ok task
or_not_found p (err e) = if is e no_rows then err err_task_not_found else err (wrapped p e)

abbrev pub scan_all : Result Rows → Result (List Task)
scan_all (err e) = err (wrapped "postgrestask: list: " e)
scan_all (ok rows) = scan_rows rows.scanned rows.failure

-- `tag.RowsAffected() == 0`
abbrev pub deleted_one : Result ℕ → Result (Unit {0})
deleted_one (err e) = err (wrapped "postgrestask: delete: " e)
deleted_one (ok zero) = err err_task_not_found
deleted_one (ok (suc _)) = ok tt

module _ (pool : Pool) where
  unfoldable pub create : Task → Exec pool.State Task
  unfolding insert_query
  create task s =
      let (row, s') =
        pool.query_row insert_query
          (varchar task.title
            ∷ varchar task.description
            ∷ varchar task.status
            ∷ varchar task.assignee
            ∷ [])
          s in
      (
        wrap_error "postgrestask: create: "
            (map_ok (λ (i : ℤ). record task { id = i }) (scan_int row)),
        s',
      )

  unfoldable pub get_by_id : ℤ → Exec pool.State Task
  unfolding get_query
  get_by_id id s =
      let (row, s') = pool.query_row get_query (bigint id ∷ []) s in
      (or_not_found "postgrestask: get by id: " (scan_task row), s')

  unfoldable pub list : ListTasksRequest → Exec pool.State (List Task)
  list req s =
      let built = list_query req in
      let (rows, s') = pool.query built.query built.args s in (scan_all rows, s')

  unfoldable pub update : UpdateTaskRequest → Exec pool.State Task
  update req s =
      let built = update_query req in
      let (row, s') = pool.query_row built.query built.args s in
      (or_not_found "postgrestask: update: " (scan_task row), s')

  unfoldable pub delete : ℤ → Exec pool.State (Unit {0})
  unfolding delete_query
  delete id s = let (tag, s') = pool.exec delete_query (bigint id ∷ []) s in (deleted_one tag, s')

  unfoldable pub count : Exec pool.State ℤ
  unfolding count_query
  count s =
      let (row, s') = pool.query_row count_query [] s in
      (wrap_error "postgrestask: count: " (scan_int row), s')

-- `postgrestask.New(conn)`, as the repository of the service.
abbrev pub postgres : Pool → Repository
postgres pool = record {
  State = pool.State;
  create = create pool;
  get_by_id = get_by_id pool;
  list = list pool;
  update = update pool;
  delete = delete pool;
  count = count pool;
}
