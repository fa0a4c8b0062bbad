-- ===== src/Postgres/Built.antt =====
-- The texts that the adapter builds are those of the statements, and the arguments fit their
-- placeholders.
use graph_code_challenge.Repository.Tasks.{patch}
use graph_code_challenge.Postgres.Execution.{assign}
use graph_code_challenge.Entity.{Task}
use graph_code_challenge.Postgres.Placeholders.{fits}
use graph_code_challenge.Postgres.Statements.{Statement}
use graph_code_challenge.Postgres.Adapter.{
  add_some, write, update_query, list_query, list_base, add_if, add,
}
use graph_code_challenge.Postgres.Laws.{assignments, update_statement, list_statement, keep_if}
use graph_code_challenge.Param.{UpdateTaskRequest, ListTasksRequest}
use graph_code_challenge.Postgres.Texts.{render}
use graph_code_challenge.Prelude.{
  ◌&&◌, ◌∙◌, leb_ℤ, leb_ℤ_iff, ◌==◌, ◌≤ℤ◌, not, ltb_ℤ, ℤ, pos, some, none, ◌≡◌, ◌∷◌, join, ◌++◌,
  decimal, sprintf, refl, false, true, [], List, Bool,
}
use graph_code_challenge.Postgres.{String, Option, Datum, varchar, bigint}

abbrev pub list_args : Bool → Bool → Bool → ListTasksRequest → List Datum
list_args s a c req =
    keep_if s (varchar req.status)
    ++ keep_if a (varchar req.assignee)
    ++ keep_if c (bigint req.cursor)
    ++ (bigint req.limit ∷ [])

list_chain :
    (s a c : Bool) (req : ListTasksRequest)
    → (add " ORDER BY id DESC LIMIT $%d" (bigint req.limit) (
          add_if c " AND id < $%d" (bigint req.cursor) (
            add_if a " AND assignee = $%d"
              (varchar req.assignee)
              (add_if s " AND status = $%d" (varchar req.status) list_base)))
        ≡ record { query = render (list_statement s a c); args = list_args s a c req })
      × (fits (list_statement s a c) (list_args s a c req) ≡ (leb_ℤ (pos 0) req.limit && true))
unfolding render sprintf decimal join
list_chain true true true req = (refl, refl)
list_chain true true false req = (refl, refl)
list_chain true false true req = (refl, refl)
list_chain true false false req = (refl, refl)
list_chain false true true req = (refl, refl)
list_chain false true false req = (refl, refl)
list_chain false false true req = (refl, refl)
list_chain false false false req = (refl, refl)

-- Which filters a list request gives.
abbrev pub status_given : ListTasksRequest → Bool
status_given req = not (req.status == "")

abbrev pub assignee_given : ListTasksRequest → Bool
assignee_given req = not (req.assignee == "")

abbrev pub cursor_given : ListTasksRequest → Bool
cursor_given req = ltb_ℤ (pos 0) req.cursor

abbrev pub list_sends : ListTasksRequest → Statement
list_sends req = list_statement (status_given req) (assignee_given req) (cursor_given req)

abbrev pub list_sent_args : ListTasksRequest → List Datum
list_sent_args req = list_args (status_given req) (assignee_given req) (cursor_given req) req

-- What a list sends is the text of a statement that filters by what is given, with its arguments.
pub list_query_lem :
    (req : ListTasksRequest)
    → list_query req ≡ record { query = render (list_sends req); args = list_sent_args req }
unfolding list_query
list_query_lem req = (list_chain (status_given req) (assignee_given req) (cursor_given req) req).0

pub fits-list_sends :
    (req : ListTasksRequest)
    → pos 0 ≤ℤ req.limit
    → fits (list_sends req) (list_sent_args req) ≡ true
fits-list_sends req l = rw (← (leb_ℤ_iff (pos 0) req.limit).1 l) (
    (list_chain (status_given req) (assignee_given req) (cursor_given req) req).1
    ∙ rw ((leb_ℤ_iff (pos 0) req.limit).1 l) refl)

abbrev pub is_given : Option String → Bool
is_given none = false
is_given (some _) = true

abbrev pub given_args : Option String → List Datum
given_args none = []
given_args (some value) = varchar value ∷ []

abbrev pub update_args : UpdateTaskRequest → List Datum
update_args req =
    bigint req.id ∷ given_args req.title
    ++ given_args req.description
    ++ given_args req.status
    ++ given_args req.assignee

abbrev pub update_sends : UpdateTaskRequest → Statement
update_sends req =
    update_statement (is_given req.title) (is_given req.description) (is_given req.status)
      (is_given req.assignee)

-- The text, that the arguments fit it, and what the assignments make of a task.
update_chain :
    (i : ℤ) (t d s a : Option String)
    → (write
          " WHERE id = $1 AND deleted_at IS NULL RETURNING id, title, description, status, assignee"
          (add_some ", assignee = $%d" a (
            add_some ", status = $%d" s (
              add_some ", description = $%d" d (
                add_some ", title = $%d" t (record {
                  query = "UPDATE tasks SET updated_at = now()";
                  args = bigint i ∷ [];
                })))))
        ≡ record {
          query = render (update_statement (is_given t) (is_given d) (is_given s) (is_given a));
          args = bigint i ∷ given_args t ++ given_args d ++ given_args s ++ given_args a;
        })
      × (fits
            (update_statement (is_given t) (is_given d) (is_given s) (is_given a))
            (bigint i ∷ given_args t ++ given_args d ++ given_args s ++ given_args a)
          ≡ true)
      × ((task : Task)
          → assign
              (bigint i ∷ given_args t ++ given_args d ++ given_args s ++ given_args a)
              (assignments (is_given t) (is_given d) (is_given s) (is_given a))
              task
            ≡ patch (record { id = i; title = t; description = d; status = s; assignee = a }) task)
unfolding render sprintf decimal join
update_chain i (some t) (some d) (some s) (some a) = (refl, refl, λ task. refl)
update_chain i (some t) (some d) (some s) none = (refl, refl, λ task. refl)
update_chain i (some t) (some d) none (some a) = (refl, refl, λ task. refl)
update_chain i (some t) (some d) none none = (refl, refl, λ task. refl)
update_chain i (some t) none (some s) (some a) = (refl, refl, λ task. refl)
update_chain i (some t) none (some s) none = (refl, refl, λ task. refl)
update_chain i (some t) none none (some a) = (refl, refl, λ task. refl)
update_chain i (some t) none none none = (refl, refl, λ task. refl)
update_chain i none (some d) (some s) (some a) = (refl, refl, λ task. refl)
update_chain i none (some d) (some s) none = (refl, refl, λ task. refl)
update_chain i none (some d) none (some a) = (refl, refl, λ task. refl)
update_chain i none (some d) none none = (refl, refl, λ task. refl)
update_chain i none none (some s) (some a) = (refl, refl, λ task. refl)
update_chain i none none (some s) none = (refl, refl, λ task. refl)
update_chain i none none none (some a) = (refl, refl, λ task. refl)
update_chain i none none none none = (refl, refl, λ task. refl)

-- What an update sends is the text of a statement that assigns the fields that are given, with their
-- values as arguments.
pub update_query_lem :
    (req : UpdateTaskRequest)
    → update_query req ≡ record { query = render (update_sends req); args = update_args req }
unfolding update_query
update_query_lem req = (update_chain req.id req.title req.description req.status req.assignee).0

pub fits-update_sends : (req : UpdateTaskRequest) → fits (update_sends req) (update_args req) ≡ true
fits-update_sends req = (update_chain req.id req.title req.description req.status req.assignee).1

-- The assignments, with the arguments, patch the task.
pub assign_lem :
    (req : UpdateTaskRequest) (task : Task)
    → assign
        (update_args req)
        (assignments
          (is_given req.title)
          (is_given req.description)
          (is_given req.status)
          (is_given req.assignee))
        task
      ≡ patch req task
assign_lem req = (update_chain req.id req.title req.description req.status req.assignee).2

-- The text that a list or an update builds is that of the statement that filters by, or assigns, just
-- what is given; each placeholder has an argument of its type, and every argument a placeholder, where
-- the limit is not negative.
pub queries_lem :
    (filter : ListTasksRequest) (req : UpdateTaskRequest)
    → pos 0 ≤ℤ filter.limit
    → (list_query filter
        ≡ record { query = render (list_sends filter); args = list_sent_args filter })
      × (fits (list_sends filter) (list_sent_args filter) ≡ true)
      × (update_query req ≡ record { query = render (update_sends req); args = update_args req })
      × (fits (update_sends req) (update_args req) ≡ true)
queries_lem filter req low =
    (list_query_lem filter, fits-list_sends filter low, update_query_lem req, fits-update_sends req)
