-- ===== src/Tests/Adapter.antt =====
-- The PostgreSQL adapter over the server that keeps its table in memory.
use graph_code_challenge.Postgres.Settles.{Settles, SettlesNew}
use graph_code_challenge.Postgres.Sequence.{KeepsIds}
use graph_code_challenge.Repository.Tasks.{delete_spec, update_spec, page, get_spec}
use graph_code_challenge.Postgres.Built.{
  queries_lem, update_args, update_sends, list_sent_args, list_sends,
}
use graph_code_challenge.Entity.{err_task_not_found}
use graph_code_challenge.Postgres.Placeholders.{fits}
use graph_code_challenge.Repository.Spec.{Reads}
use graph_code_challenge.Param.{UpdateTaskRequest, ListTasksRequest}
use graph_code_challenge.Postgres.Refinement.{adapter-Reads, adapter-Writes, live_in}
use graph_code_challenge.Postgres.Adapter.{
  create, get_by_id, list, update, delete, count, list_query, update_query, delete_query,
}
use graph_code_challenge.Postgres.{varchar, bigint}
use graph_code_challenge.Postgres.Execution.{execute}
use graph_code_challenge.Errors.{is, err, ok}
use graph_code_challenge.Postgres.Texts.{render}
use graph_code_challenge.Prelude.{
  length, arith, eqb_ℤ, sprintf, ltb_ℤ, ℕ, pos, ◌≡◌, join, decimal, ◌∷◌, refl, false, true, some,
  none, [], String, Bool,
}
use graph_code_challenge.Postgres.Statements.{Row, Table}
use graph_code_challenge.Tests.Database.{database, database_laws}

abbrev row_of : ℕ → String → String → Bool → Row
row_of n status assignee deleted = record {
  task = record {
    id = pos n;
    title = "title";
    description = "";
    status = status;
    assignee = assignee;
  };
  deleted = deleted;
}

abbrev pub stored : Table
stored = record {
  rows =
      row_of 4 "done" "ann" false
      ∷ row_of 3 "done" "ann" true
      ∷ row_of 2 "pending" "ann" false
      ∷ row_of 1 "done" "ann" false
      ∷ [];
  next = 5;
}

pub stored-KeepsIds : KeepsIds (database_laws.table stored)
unfolding database_laws
stored-KeepsIds = record {
  in_order = (
    omega arith,
    (omega arith, (omega arith, tt)),
    (omega arith, (omega arith, tt), (omega arith, tt, tt)),
  );
  below_next = (omega arith, (omega arith, (omega arith, tt)));
  first_id = omega arith;
  last_id_bound = omega arith;
}

abbrev done_by_ann : ListTasksRequest
done_by_ann = record { status = "done"; assignee = "ann"; cursor = pos 4; limit = pos 2 }

abbrev retitle : UpdateTaskRequest
retitle = record {
  id = pos 2;
  title = some "new title";
  description = none;
  status = some "done";
  assignee = none;
}

queries_lem_example :
    (list_query done_by_ann ≡ record {
      query =
          "SELECT id, title, description, status, assignee FROM tasks WHERE deleted_at IS NULL AND status = $1 AND assignee = $2 AND id < $3 ORDER BY id DESC LIMIT $4";
      args = varchar "done" ∷ varchar "ann" ∷ bigint (pos 4) ∷ bigint (pos 2) ∷ [];
    })
    × (fits (list_sends done_by_ann) (list_sent_args done_by_ann) ≡ true)
    × (update_query retitle ≡ record {
      query =
          "UPDATE tasks SET updated_at = now(), title = $2, status = $3 WHERE id = $1 AND deleted_at IS NULL RETURNING id, title, description, status, assignee";
      args = bigint (pos 2) ∷ varchar "new title" ∷ varchar "done" ∷ [];
    })
    × (fits (update_sends retitle) (update_args retitle) ≡ true)
unfolding render decimal join ltb_ℤ
queries_lem_example = queries_lem done_by_ann retitle (omega arith)

list_tests :
    (list database done_by_ann stored ≡ (ok ((row_of 1 "done" "ann" false).task ∷ []), stored))
    × ((delete database (pos 3) stored).0 ≡ err err_task_not_found)
    × ((update database retitle stored).0
        ≡ ok (record (row_of 2 "done" "ann" false).task { title = "new title" }))
unfolding list list_query update update_query delete delete_query render execute decimal join
    sprintf ltb_ℤ eqb_ℤ is
list_tests = (refl, refl, refl)

adapter-Reads_example :
    let live = live_in database database_laws stored in
    Reads
      (get_spec (pos 2) live)
      live
      (get_by_id database (pos 2) stored).0
      (live_in database database_laws (get_by_id database (pos 2) stored).1)
    × Reads
        (ok (page done_by_ann live))
        live
        (list database done_by_ann stored).0
        (live_in database database_laws (list database done_by_ann stored).1)
    × Reads
        (ok (pos (length live)))
        live
        (count database stored).0
        (live_in database database_laws (count database stored).1)
adapter-Reads_example =
    adapter-Reads database database_laws (pos 2) done_by_ann stored (omega arith) stored-KeepsIds

adapter-Writes_example :
    let live = live_in database database_laws stored in
    let task = (row_of 0 "pending" "" false).task in
    (SettlesNew task live
        (create database task stored).0
        (live_in database database_laws (create database task stored).1)
      × KeepsIds (database_laws.table (create database task stored).1))
    × (Settles
          (update_spec retitle live)
          live
          (update database retitle stored).0
          (live_in database database_laws (update database retitle stored).1)
        × KeepsIds (database_laws.table (update database retitle stored).1))
    × (Settles
          (delete_spec (pos 2) live)
          live
          (delete database (pos 2) stored).0
          (live_in database database_laws (delete database (pos 2) stored).1)
        × KeepsIds (database_laws.table (delete database (pos 2) stored).1))
adapter-Writes_example =
    adapter-Writes database database_laws (row_of 0 "pending" "" false).task retitle (pos 2) stored
      stored-KeepsIds
