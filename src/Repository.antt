-- ===== src/Repository.antt =====
-- The interface that the service consumes and that both adapters implement: `Repository` of
-- internal/service/taskservice/service.go and internal/repository/redis/redistask/task.go. A
-- context is not modelled: a cancelled call is one that returns an error.
pub mod Descending
pub mod Spec
pub mod Tasks
use graph_code_challenge.Prelude.{List, ℤ}
use graph_code_challenge.Exec.{Exec}
use graph_code_challenge.Entity.{Task}
use graph_code_challenge.Param.{ListTasksRequest, UpdateTaskRequest}

pub record Repository : Type 1 where
  pub State : Type 0
  pub create : Task → Exec State Task
  pub get_by_id : ℤ → Exec State Task
  pub list : ListTasksRequest → Exec State (List Task)
  pub update : UpdateTaskRequest → Exec State Task
  pub delete : ℤ → Exec State (Unit {0})
  pub count : Exec State ℤ
