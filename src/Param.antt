-- ===== src/Param.antt =====
-- internal/param: what the service takes and returns. A nil pointer is `none`.
use graph_code_challenge.Prelude.{
  ℤ, pos, String, Bool, true, false, ◌&&◌, Option, none, some, List, leb_ℤ, ltb_ℤ, if◌then◌else◌,
}
use graph_code_challenge.Entity.{Task, TaskStatus}

pub record TaskInfo : Type 0 where
  pub id : ℤ
  pub title : String
  pub description : String
  pub status : String
  pub assignee : String

unfoldable pub new_task_info : Task → TaskInfo
new_task_info task = record {
  id = task.id;
  title = task.title;
  description = task.description;
  status = task.status;
  assignee = task.assignee;
}

pub record CreateTaskRequest : Type 0 where
  pub title : String
  pub description : String
  pub status : TaskStatus
  pub assignee : String

pub record UpdateTaskRequest : Type 0 where
  pub id : ℤ
  pub title : Option String
  pub description : Option String
  pub status : Option TaskStatus
  pub assignee : Option String

abbrev pub is_nil {ℓ} : {A : Type ℓ} → Option A → Bool
is_nil none = true
is_nil (some _) = false

unfoldable pub is_empty : UpdateTaskRequest → Bool
is_empty r = is_nil r.title && is_nil r.description && is_nil r.status && is_nil r.assignee

abbrev default_task_list_limit : ℤ
default_task_list_limit = pos 20

abbrev max_task_list_limit : ℤ
max_task_list_limit = pos 50

pub record ListTasksRequest : Type 0 where
  pub status : TaskStatus
  pub assignee : String
  pub cursor : ℤ
  pub limit : ℤ

unfoldable pub with_clamped_limit : ListTasksRequest → ListTasksRequest
with_clamped_limit r =
    if leb_ℤ r.limit (pos 0)
    then record r { limit = default_task_list_limit }
    else if ltb_ℤ max_task_list_limit r.limit
    then record r { limit = max_task_list_limit }
    else r

pub record ListTasksResponse : Type 0 where
  pub tasks : List TaskInfo
  pub next_cursor : ℤ
  pub has_more : Bool

pub record CreateTaskResponse : Type 0 where
  pub task : TaskInfo

pub record GetTaskResponse : Type 0 where
  pub task : TaskInfo

pub record GetTaskRequest : Type 0 where
  pub id : ℤ

pub record DeleteTaskRequest : Type 0 where
  pub id : ℤ

pub record UpdateTaskResponse : Type 0 where
  pub task : TaskInfo

-- `struct{}`
abbrev pub DeleteTaskResponse : Type 0
DeleteTaskResponse = Unit {0}
