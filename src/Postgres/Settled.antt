-- ===== src/Postgres/Settled.antt =====
-- The writes of the adapter, each in the ways that PostgreSQL documents.
use graph_code_challenge.Postgres.Creates.{create_args, create-Settles}
use graph_code_challenge.Postgres.Settles.{Settles, SettlesNew}
use graph_code_challenge.Postgres.Sequence.{KeepsIds}
use graph_code_challenge.Postgres.Built.{
  fits-update_sends, is_given, update_query_lem, update_args, update_sends,
}
use graph_code_challenge.Postgres.Statements.{insert_task}
use graph_code_challenge.Param.{UpdateTaskRequest}
use graph_code_challenge.Repository.Tasks.{delete_spec, update_spec}
use graph_code_challenge.Postgres.Writes.{update-Settles, delete-Settles}
use graph_code_challenge.Postgres.Texts.{render}
use graph_code_challenge.Postgres.Reads.{live_of}
use graph_code_challenge.Entity.{Task}
use graph_code_challenge.Prelude.{◌∷◌, join, decimal, refl, [], ℤ}
use graph_code_challenge.Postgres.{bigint, Pool}
use graph_code_challenge.Postgres.Adapter.{delete_query, insert_query, create, update, delete}
use graph_code_challenge.Postgres.Laws.{
  sent_update, sent_delete, delete_statement, sent_insert, PostgresLaws,
}

module _ (pool : Pool) (laws : PostgresLaws pool) where
  pub create_settled :
      (task : Task) (s : pool.State)
      → KeepsIds (laws.table s)
      → SettlesNew task
          (live_of (laws.table s))
          (create pool task s).0
          (live_of (laws.table (create pool task s).1))
        × KeepsIds (laws.table (create pool task s).1)
  unfolding create insert_query render
  create_settled task s keeps =
      create-Settles task (laws.table s)
        (laws.table (pool.query_row insert_query (create_args task) s).1)
        (pool.query_row insert_query (create_args task) s).0 keeps
        (laws.query_row_law insert_task (create_args task) s sent_insert refl)

  pub update_settled :
      (req : UpdateTaskRequest) (s : pool.State)
      → KeepsIds (laws.table s)
      → Settles
          (update_spec req (live_of (laws.table s)))
          (live_of (laws.table s))
          (update pool req s).0
          (live_of (laws.table (update pool req s).1))
        × KeepsIds (laws.table (update pool req s).1)
  unfolding update
  update_settled req s keeps =
      let text = render (update_sends req) in
      let args = update_args req in
      rw (update_query_lem req) (
        update-Settles req (laws.table s) (laws.table (pool.query_row text args s).1)
          (pool.query_row text args s).0 keeps
          (laws.query_row_law (update_sends req) args s
            (sent_update (is_given req.title) (is_given req.description) (is_given req.status)
              (is_given req.assignee))
            (fits-update_sends req)))

  pub delete_settled :
      (id : ℤ) (s : pool.State)
      → KeepsIds (laws.table s)
      → Settles
          (delete_spec id (live_of (laws.table s)))
          (live_of (laws.table s))
          (delete pool id s).0
          (live_of (laws.table (delete pool id s).1))
        × KeepsIds (laws.table (delete pool id s).1)
  unfolding delete delete_query render decimal join
  delete_settled id s keeps =
      delete-Settles id (laws.table s) (laws.table (pool.exec delete_query (bigint id ∷ []) s).1)
        (pool.exec delete_query (bigint id ∷ []) s).0 keeps
        (laws.exec_law delete_statement (bigint id ∷ []) s sent_delete refl)
