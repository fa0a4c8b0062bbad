-- ===== src/Postgres/Refinement.antt =====
-- The adapter is a repository that keeps its contract: every operation does to the live rows what the
-- abstract table says, or fails with an internal error.
use graph_code_challenge.Postgres.Settled.{delete_settled, update_settled, create_settled}
use graph_code_challenge.Postgres.Creates.{create_args, create-Creates}
use graph_code_challenge.Postgres.Settles.{Settles, SettlesNew}
use graph_code_challenge.Postgres.Sequence.{KeepsIds-QueryOutcome, KeepsIds-Outcome, KeepsIds}
use graph_code_challenge.Repository.Descending.{length-lt}
use graph_code_challenge.Postgres.Built.{
  list_query_lem, fits-list_sends, cursor_given, assignee_given, fits-update_sends, status_given,
  is_given, list_sent_args, list_sends, update_query_lem, update_args, update_sends,
}
use graph_code_challenge.Postgres.Statements.{insert_task, Table}
use graph_code_challenge.Postgres.Execution.{execute}
use graph_code_challenge.Param.{ListTasksRequest, UpdateTaskRequest}
use graph_code_challenge.Errors.{ok}
use graph_code_challenge.Repository.Tasks.{page, delete_spec, update_spec, get_spec}
use graph_code_challenge.Postgres.Writes.{update-Writes, delete-Writes}
use graph_code_challenge.Postgres.Texts.{render}
use graph_code_challenge.Postgres.Reads.{list-Reads, count-Reads, get-Reads, live_of}
use graph_code_challenge.Entity.{Task}
use graph_code_challenge.Prelude.{
  arith, ◌^◌, ◌<◌, ◌≤ℤ◌, length, pos, ◌∷◌, join, decimal, refl, [], List, ℤ,
}
use graph_code_challenge.Repository.Spec.{Implements, Creates, Reads, Writes}
use graph_code_challenge.Postgres.{bigint, Pool}
use graph_code_challenge.Postgres.Adapter.{
  delete_query, count_query, insert_query, get_query, postgres, create, get_by_id, list, update,
  delete, count,
}
use graph_code_challenge.Postgres.Laws.{
  sent_update, sent_list, sent_delete, sent_count, delete_statement, sent_insert, count_statement,
  sent_get, get_statement, PostgresLaws, KeepsAnswers,
}

module _ (pool : Pool) (laws : PostgresLaws pool) where
  abbrev pub live_in : pool.State → List Task
  live_in s = live_of (laws.table s)

  -- A read leaves the whole table, not only its live rows.
  pub create-law :
      (task : Task) (s : pool.State)
      → KeepsAnswers pool laws
      → KeepsIds (laws.table s)
      → Creates task (live_in s) (create pool task s).0 (live_in (create pool task s).1)
        × KeepsIds (laws.table (create pool task s).1)
  unfolding create insert_query render
  create-law task s answers keeps =
      create-Creates task (laws.table s)
        (laws.table (pool.query_row insert_query (create_args task) s).1)
        (pool.query_row insert_query (create_args task) s).0 keeps
        (laws.query_row_law insert_task (create_args task) s sent_insert refl)
        (answers.query_row_answered insert_task (create_args task) s sent_insert refl)

  pub get_by_id-law :
      (id : ℤ) (s : pool.State)
      → KeepsIds (laws.table s)
      → Reads
          (get_spec id (live_in s))
          (live_in s)
          (get_by_id pool id s).0
          (live_in (get_by_id pool id s).1)
        × KeepsIds (laws.table (get_by_id pool id s).1)
  unfolding get_by_id get_query execute render decimal join
  get_by_id-law id s keeps =
      let outcome = laws.query_row_law get_statement (bigint id ∷ []) s sent_get refl in
      (
        get-Reads id (laws.table s) (laws.table (pool.query_row get_query (bigint id ∷ []) s).1)
            (pool.query_row get_query (bigint id ∷ []) s).0 outcome,
        KeepsIds-Outcome outcome keeps,
      )

  pub list-law :
      (req : ListTasksRequest) (s : pool.State)
      → pos 0 ≤ℤ req.limit
      → KeepsIds (laws.table s)
      → Reads
          (ok (page req (live_in s)))
          (live_in s)
          (list pool req s).0
          (live_in (list pool req s).1)
        × KeepsIds (laws.table (list pool req s).1)
  unfolding list execute
  list-law req s low keeps =
      let text = render (list_sends req) in
      let args = list_sent_args req in
      let outcome =
        laws.query_law (list_sends req) args s
          (sent_list (status_given req) (assignee_given req) (cursor_given req))
          (fits-list_sends req low) in
      rw (list_query_lem req) (
        list-Reads req (laws.table s) (laws.table (pool.query text args s).1)
            (pool.query text args s).0 outcome,
        KeepsIds-QueryOutcome outcome keeps,
      )

  pub update-law :
      (req : UpdateTaskRequest) (s : pool.State)
      → KeepsAnswers pool laws
      → KeepsIds (laws.table s)
      → Writes
          (update_spec req (live_in s))
          (live_in s)
          (update pool req s).0
          (live_in (update pool req s).1)
        × KeepsIds (laws.table (update pool req s).1)
  unfolding update
  update-law req s answers keeps =
      let text = render (update_sends req) in
      let args = update_args req in
      rw (update_query_lem req) (
        update-Writes req (laws.table s) (laws.table (pool.query_row text args s).1)
          (pool.query_row text args s).0 keeps
          (laws.query_row_law (update_sends req) args s
            (sent_update (is_given req.title) (is_given req.description) (is_given req.status)
              (is_given req.assignee))
            (fits-update_sends req))
          (answers.query_row_answered (update_sends req) args s
            (sent_update (is_given req.title) (is_given req.description) (is_given req.status)
              (is_given req.assignee))
            (fits-update_sends req)))

  pub delete-law :
      (id : ℤ) (s : pool.State)
      → KeepsAnswers pool laws
      → KeepsIds (laws.table s)
      → Writes
          (delete_spec id (live_in s))
          (live_in s)
          (delete pool id s).0
          (live_in (delete pool id s).1)
        × KeepsIds (laws.table (delete pool id s).1)
  unfolding delete delete_query render decimal join
  delete-law id s answers keeps =
      delete-Writes id (laws.table s) (laws.table (pool.exec delete_query (bigint id ∷ []) s).1)
        (pool.exec delete_query (bigint id ∷ []) s).0 keeps
        (laws.exec_law delete_statement (bigint id ∷ []) s sent_delete refl)
        (answers.exec_answered delete_statement (bigint id ∷ []) s sent_delete refl)

  pub count-law :
      (s : pool.State)
      → KeepsIds (laws.table s)
      → Reads
          (ok (pos (length (live_in s))))
          (live_in s)
          (count pool s).0
          (live_in (count pool s).1)
        × KeepsIds (laws.table (count pool s).1)
  unfolding count count_query execute render decimal join
  count-law s keeps =
      let outcome = laws.query_row_law count_statement [] s sent_count refl in
      (
        count-Reads (laws.table s) (laws.table (pool.query_row count_query [] s).1)
            (pool.query_row count_query [] s).0 outcome,
        KeepsIds-Outcome outcome keeps,
      )

  -- Each read of the adapter answers as the table of the live rows does, or fails internally, over any
  -- pool that does as PostgreSQL documents; the live rows are as they were.
  pub adapter-Reads :
      (id : ℤ) (req : ListTasksRequest) (s : pool.State)
      → pos 0 ≤ℤ req.limit
      → KeepsIds (laws.table s)
      → Reads
          (get_spec id (live_in s))
          (live_in s)
          (get_by_id pool id s).0
          (live_in (get_by_id pool id s).1)
        × Reads
            (ok (page req (live_in s)))
            (live_in s)
            (list pool req s).0
            (live_in (list pool req s).1)
        × Reads
            (ok (pos (length (live_in s))))
            (live_in s)
            (count pool s).0
            (live_in (count pool s).1)
  adapter-Reads id req s low keeps =
      ((get_by_id-law id s keeps).0, (list-law req s low keeps).0, (count-law s keeps).0)

  -- Each write of the adapter does to the live rows what the table's operation does, or fails
  -- internally, over any pool that does as PostgreSQL documents: it has then left the live rows, or
  -- done to them what the operation does, its answer being lost. The ids stay in order and below
  -- what the sequence gives next.
  pub adapter-Writes :
      (task : Task) (req : UpdateTaskRequest) (id : ℤ) (s : pool.State)
      → KeepsIds (laws.table s)
      → (SettlesNew task (live_in s) (create pool task s).0 (live_in (create pool task s).1)
          × KeepsIds (laws.table (create pool task s).1))
        × (Settles
              (update_spec req (live_in s))
              (live_in s)
              (update pool req s).0
              (live_in (update pool req s).1)
            × KeepsIds (laws.table (update pool req s).1))
        × (Settles
              (delete_spec id (live_in s))
              (live_in s)
              (delete pool id s).0
              (live_in (delete pool id s).1)
            × KeepsIds (laws.table (delete pool id s).1))
  adapter-Writes task req id s keeps = (
    create_settled pool laws task s keeps,
    update_settled pool laws req s keeps,
    delete_settled pool laws id s keeps,
  )

pub KeepsIds-countable : (t : Table) → KeepsIds t → length (live_of t) < 2 ^ 63
KeepsIds-countable t keeps =
    let short = length-lt (pos t.next) (live_of t) keeps.first_id keeps.in_order keeps.below_next in
    let bound = keeps.last_id_bound in omega arith

-- The adapter over any pool that does as PostgreSQL documents, and that loses no answer of a statement
-- that it has carried out, keeps the contract of a repository.
unfoldable pub postgres_laws :
    (pool : Pool) (laws : PostgresLaws pool) → KeepsAnswers pool laws → Implements (postgres pool)
postgres_laws pool laws answers = record {
  live = live_in pool laws;
  IsSound = λ s. KeepsIds (laws.table s);
  descending = λ s keeps. keeps.in_order;
  countable = λ s keeps. KeepsIds-countable (laws.table s) keeps;
  create_law = λ task s keeps. create-law pool laws task s answers keeps;
  get_by_id_law = get_by_id-law pool laws;
  list_law = list-law pool laws;
  update_law = λ req s keeps. update-law pool laws req s answers keeps;
  delete_law = λ id s keeps. delete-law pool laws id s answers keeps;
  count_law = count-law pool laws;
}
