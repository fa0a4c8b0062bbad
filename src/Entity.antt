-- ===== src/Entity.antt =====
-- internal/entity: the task, its statuses and its limits.
use graph_code_challenge.Prelude.{
  ℕ, ℤ, String, Bool, true, ◌||◌, List, [], ◌∷◌, ◌==◌, ◌≡◌, ◌↔◌, ◌⊎◌, arith, eq_iff,
}
use graph_code_challenge.Errors.{Error, sentinel, wrapped, not_found}

abbrev pub max_task_title_len : ℕ
max_task_title_len = 200

abbrev pub max_task_description_len : ℕ
max_task_description_len = 2000

abbrev pub max_task_assignee_len : ℕ
max_task_assignee_len = 100

abbrev pub err_task_not_found : Error
err_task_not_found = wrapped "task: " (sentinel not_found)

-- A Go string type: any text is a value of it.
abbrev pub TaskStatus : Type 0
TaskStatus = String

abbrev pub task_status_pending : TaskStatus
task_status_pending = "pending"

abbrev task_status_in_progress : TaskStatus
task_status_in_progress = "in_progress"

abbrev task_status_done : TaskStatus
task_status_done = "done"

abbrev pub task_status_list : List TaskStatus
task_status_list = task_status_pending ∷ task_status_in_progress ∷ task_status_done ∷ []

unfoldable pub is_valid : TaskStatus → Bool
is_valid s = s == task_status_pending || s == task_status_in_progress || s == task_status_done

pub record Task : Type 0 where
  pub id : ℤ
  pub title : String
  pub description : String
  pub status : TaskStatus
  pub assignee : String

abbrev pub IsKnownStatus : TaskStatus → Type 0
IsKnownStatus s = (s ≡ task_status_pending) ⊎ (s ≡ task_status_in_progress) ⊎ (s ≡ task_status_done)

pub is_valid_iff : (s : TaskStatus) → (is_valid s ≡ true) ↔ IsKnownStatus s
unfolding is_valid
is_valid_iff s = ground (arith, eq_iff s "pending", eq_iff s "in_progress", eq_iff s "done")
