-- ===== src/Handler/Lookup.antt =====
-- `get` over the service and a repository that keeps its contract.
use graph_code_challenge.Service.Tasks.{get-some, get-none}
use graph_code_challenge.Repository.Tasks.{find}
use graph_code_challenge.Param.{new_task_info, GetTaskResponse}
use graph_code_challenge.Errors.{Error, is}
use graph_code_challenge.Entity.{Task}
use graph_code_challenge.Repository.Spec.{failed, answered, Implements}
use graph_code_challenge.Repository.{Repository}
use graph_code_challenge.Prelude.{Option-cases, refl, inr, inl, ◌∷◌, ◌++◌, ◌≡◌, ℤ, some, none, []}
use graph_code_challenge.Handler.{
  payload, msg_internal, msg_not_found, write_message, parse_id, task_service, Session, Response,
  Request, List, write_error, Option, TaskService, get,
}

-- The answer to a request for a task: the live one, or status 404 if there is none, or status 500 and
-- a line in the log.
pub data GetAnswer (svc : TaskService) (live : Option Task) (before : List Error)
    (r : Response GetTaskResponse) (after : List Error) : Type 0 where
  found :
      (t : Task)
      → live ≡ some t
      → r ≡ record { status = 200; body = payload (record { task = new_task_info t }) }
      → after ≡ before
      → GetAnswer svc live before r after
  missing :
      live ≡ none
      → r ≡ write_message 404 msg_not_found
      → after ≡ before
      → GetAnswer svc live before r after
  broken :
      (e : Error)
      → r ≡ write_message 500 msg_internal
      → after ≡ before ++ e ∷ []
      → GetAnswer svc live before r after

module _ (repo : Repository) (impl : Implements repo) where
  -- A request for a task by a well-formed id is answered with status 200 and the live task of that id,
  -- or with status 404 if there is none, and then nothing is logged; or with status 500 and the error
  -- in the log.
  pub get-GetAnswer :
      (r : Request) (id : ℤ) (s : Session (task_service repo))
      → parse_id r.id ≡ some id
      → impl.IsSound s.store
      → GetAnswer
          (task_service repo)
          (find id (impl.live s.store))
          s.logged
          (get (task_service repo) r s).0
          (get (task_service repo) r s).1.logged
  unfolding get write_error is
  get-GetAnswer r id s p sound = elim (Option-cases (find id (impl.live s.store))) [
    | inl gone ↦ elim (get-none repo impl id sound gone) [
      | answered e ↦
          missing gone (rw (p, get) (rw (e, write_error) refl))
            (rw (p, get) (rw (e, write_error) refl))
      | failed x e i ↦
          broken x (rw (p, get) (rw (e, write_error, i.0, i.1) refl))
            (rw (p, get) (rw (e, write_error, i.0, i.1) refl))
    ]
    | inr (t, there) ↦ elim (get-some repo impl id sound there) [
      | answered e ↦ found t there (rw (p, get) (rw e refl)) (rw (p, get) (rw e refl))
      | failed x e i ↦
          broken x (rw (p, get) (rw (e, write_error, i.0, i.1) refl))
            (rw (p, get) (rw (e, write_error, i.0, i.1) refl))
    ]
  ]
