-- ===== src/Service.antt =====
-- internal/service/taskservice/service.go: the service over any repository. A context is not
-- modelled.
pub mod Cursors
pub mod Errors
pub mod Pages
pub mod Paging
pub mod Tasks
use graph_code_challenge.Prelude.{
  ltb, ◌&&◌, map, pos_part, take, length, ◌∷◌, ◌==◌, ltb_ℤ, ℤ, if◌then◌else◌, List, add_int64, pos,
  [],
}
use graph_code_challenge.Errors.{Result}
use graph_code_challenge.Entity.{Task, task_status_pending}
use graph_code_challenge.Exec.{Exec, pure, wrapping, ◌>>=◌, ◌>>◌}
use graph_code_challenge.Param.{
  GetTaskRequest, DeleteTaskRequest, TaskInfo, new_task_info, CreateTaskRequest, CreateTaskResponse,
  GetTaskResponse, UpdateTaskRequest, UpdateTaskResponse, DeleteTaskResponse, ListTasksRequest,
  ListTasksResponse, with_clamped_limit,
}
use graph_code_challenge.Repository.{Repository}

-- The task that a create request stands for; the id is the zero value.
unfoldable pub new_task : CreateTaskRequest → Task
new_task req = record {
  id = pos 0;
  title = req.title;
  description = req.description;
  status = if req.status == "" then task_status_pending else req.status;
  assignee = req.assignee;
}

-- `tasks[len(tasks)-1].ID`, read only where `len(tasks) > 0`.
abbrev pub last_id : List Task → ℤ
last_id [] = pos 0
last_id (t ∷ []) = t.id
last_id (t ∷ u ∷ ts) = last_id (u ∷ ts)

-- The second half of `List`: the extra task is cut off and counts as "there is more".
unfoldable pub respond : ListTasksRequest → List Task → ListTasksResponse
respond req tasks =
    let has_more = ltb_ℤ req.limit (pos (length tasks)) in
    let kept = if has_more then take (pos_part req.limit) tasks else tasks in
    record {
      tasks = map new_task_info kept;
      next_cursor = if has_more && ltb 0 (length kept) then last_id kept else pos 0;
      has_more = has_more;
    }

module _ (repo : Repository) where
  unfoldable pub create : CreateTaskRequest → Exec repo.State CreateTaskResponse
  unfolding new_task
  create req = do
    created ← wrapping "taskservice: create task: " (repo.create (new_task req))
    pure (record { task = new_task_info created })

  unfoldable pub get_by_id : GetTaskRequest → Exec repo.State GetTaskResponse
  get_by_id req = do
    task ← wrapping "taskservice: get task: " (repo.get_by_id req.id)
    pure (record { task = new_task_info task })

  unfoldable pub list : ListTasksRequest → Exec repo.State ListTasksResponse
  list req = do
    let clamped = with_clamped_limit req
    let probe = record clamped { limit = add_int64 clamped.limit (pos 1) }
    tasks ← wrapping "taskservice: list tasks: " (repo.list probe)
    pure (respond clamped tasks)

  unfoldable pub update : UpdateTaskRequest → Exec repo.State UpdateTaskResponse
  update req = do
    updated ← wrapping "taskservice: update task: " (repo.update req)
    pure (record { task = new_task_info updated })

  unfoldable pub delete : DeleteTaskRequest → Exec repo.State DeleteTaskResponse
  delete req = do wrapping "taskservice: delete task: " (repo.delete req.id); pure tt

  unfoldable pub count : Exec repo.State ℤ
  count = do count ← wrapping "taskservice: count tasks: " repo.count; pure count
