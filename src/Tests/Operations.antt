-- ===== src/Tests/Operations.antt =====
-- internal/service/taskservice over a table that is kept in memory.
use graph_code_challenge.Service.Paging.{collect_lem, collect}
use graph_code_challenge.Service.Tasks.{get-update, get-create, get-delete}
use graph_code_challenge.Service.Pages.{with_clamped_limit_lem, list_lem, page_size, page_response}
use graph_code_challenge.Service.{new_task}
use graph_code_challenge.Repository.Tasks.{matches, patch, find}
use graph_code_challenge.Entity.{err_task_not_found, Task}
use graph_code_challenge.Tests.Memory.{IsTable, memory_laws, memory}
use graph_code_challenge.Param.{
  ListTasksRequest, with_clamped_limit, new_task_info, CreateTaskRequest, UpdateTaskRequest,
  TaskInfo,
}
use graph_code_challenge.Repository.Spec.{Reads, Answers}
use graph_code_challenge.Errors.{wrapped, err, ok}
use graph_code_challenge.Prelude.{
  ltb_ℤ, eqb_ℤ, leb_ℤ, ◌<◌, pos, arith, map, filterb, ◌∷◌, List, ◌≡◌, length, refl, some, none, [],
}
use graph_code_challenge.Service

abbrev pub first_task : Task
first_task = record {
  id = pos 1;
  title = "a";
  description = "";
  status = "done";
  assignee = "alex";
}

abbrev second_task : Task
second_task = record {
  id = pos 2;
  title = "b";
  description = "";
  status = "pending";
  assignee = "sam";
}

abbrev pub two_tasks : List Task
two_tasks = second_task ∷ first_task ∷ []

pub two_tasks-IsTable : IsTable two_tasks
two_tasks-IsTable =
    ((omega arith, (omega arith, tt), (omega arith, tt, tt)), (omega arith, (omega arith, tt)))

abbrev pub everything : ListTasksRequest
everything = record { status = ""; assignee = ""; cursor = pos 0; limit = pos 1 }

abbrev third : CreateTaskRequest
third = record { title = "c"; description = ""; status = ""; assignee = "sam" }

abbrev pub finish : UpdateTaskRequest
finish = record {
  id = pos 2;
  title = none;
  description = none;
  status = some "done";
  assignee = none;
}

with_clamped_limit_lem_example :
    with_clamped_limit everything ≡ record everything { limit = pos (page_size (pos 1)) }
with_clamped_limit_lem_example = with_clamped_limit_lem everything

list_lem_example :
    Reads
      (ok (page_response (page_size (pos 1)) (filterb (matches everything) two_tasks)))
      two_tasks
      (Service.list memory everything two_tasks).0
      (Service.list memory everything two_tasks).1
    × IsTable (Service.list memory everything two_tasks).1
unfolding memory_laws
list_lem_example = list_lem memory memory_laws everything two_tasks two_tasks-IsTable

pub two_matches : length (filterb (matches everything) two_tasks) < 3
unfolding leb_ℤ
two_matches = omega arith

collect_lem_example :
    Answers
      (ok (map new_task_info (filterb (matches everything) two_tasks)))
      (collect memory 3 everything two_tasks).0
unfolding memory_laws
collect_lem_example =
    collect_lem memory memory_laws 3 everything two_tasks two_tasks-IsTable two_matches

abbrev third_made : TaskInfo
third_made = record {
  id = pos 3;
  title = "c";
  description = "";
  status = "pending";
  assignee = "sam";
}

abbrev with_third : List Task
with_third =
    record { id = pos 3; title = "c"; description = ""; status = "pending"; assignee = "sam" }
    ∷ two_tasks

create_third :
    Service.create memory third two_tasks ≡ (ok (record { task = third_made }), with_third)
unfolding Service.create new_task_info leb_ℤ ltb_ℤ
create_third = refl

get-create_example :
    (third_made ≡ record {
      id = pos 3;
      title = third.title;
      description = third.description;
      status = "pending";
      assignee = third.assignee;
    })
    × Answers
        (ok (record { task = third_made }))
        (Service.get_by_id memory (record { id = pos 3 }) with_third).0
unfolding memory_laws
get-create_example =
    get-create memory memory_laws third two_tasks with_third (record { task = third_made })
      two_tasks-IsTable create_third

abbrev pub finished : Task
finished = record second_task { status = "done" }

update_second :
    Service.update memory finish two_tasks
    ≡ (ok (record { task = new_task_info finished }), finished ∷ first_task ∷ [])
unfolding Service.update new_task_info eqb_ℤ
update_second = refl

get-update_example :
    (old : Task) × (find (pos 2) two_tasks ≡ some old)
    × (new_task_info finished ≡ new_task_info (patch finish old))
    × Answers
        (ok (record { task = new_task_info finished }))
        (Service.get_by_id memory (record { id = pos 2 }) (finished ∷ first_task ∷ [])).0
unfolding memory_laws
get-update_example =
    get-update memory memory_laws finish two_tasks (finished ∷ first_task ∷ [])
      (record { task = new_task_info finished }) two_tasks-IsTable update_second

delete_second : Service.delete memory (record { id = pos 2 }) two_tasks ≡ (ok tt, first_task ∷ [])
unfolding Service.delete eqb_ℤ
delete_second = refl

get-delete_example :
    Answers
      (err (wrapped "taskservice: get task: " err_task_not_found))
      (Service.get_by_id memory (record { id = pos 2 }) (first_task ∷ [])).0
unfolding memory_laws
get-delete_example =
    get-delete memory memory_laws (pos 2) two_tasks (first_task ∷ []) two_tasks-IsTable
      delete_second
