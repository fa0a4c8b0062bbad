-- ===== src/Handler/Sessions.antt =====
-- The handlers over the service and a repository that keeps its contract: each does to the table what
-- is expected of it.
use graph_code_challenge.Handler.Passed.{
  wrapped-store, update_spec-IsTold, sent, delete_spec-IsTold, found-IsTold, map_ok-Unit,
  wrapped-sent, kept, Does,
}
use graph_code_challenge.Handler.Gate.{list-error, update-error, create-error}
use graph_code_challenge.Service.{new_task}
use graph_code_challenge.Service.Pages.{list_lem}
use graph_code_challenge.Validator.{
  validate_create_request, validate_list_request, validate_update_request,
}
use graph_code_challenge.Param.{
  CreateTaskResponse, CreateTaskRequest, UpdateTaskResponse, ListTasksResponse, ListTasksRequest,
  UpdateTaskRequest,
}
use graph_code_challenge.Repository.Tasks.{replace, patch, find, found}
use graph_code_challenge.Handler.Table.{
  IsNew, create_response, update_response, get_response, replied,
}
use graph_code_challenge.Handler.Sent.{Reads-Writes}
use graph_code_challenge.Entity.{Task}
use graph_code_challenge.Repository.Spec.{failed, written, created, Implements}
use graph_code_challenge.Repository.{Repository}
use graph_code_challenge.Errors.{Result, is, ok}
use graph_code_challenge.Prelude.{ap, ◌∙◌, ◌⊎◌, pos, ℤ, Option-cases, refl, inr, inl, some}
use graph_code_challenge.Handler
use graph_code_challenge.Handler.{
  insert, payload, bind_query, bind_json, parse_id, send, task_service, Session, List, Option, ℕ,
  Request, write_error, Response, String, create_bound, update_bound, list_bound, TaskService,
}
use graph_code_challenge.Handler.Table
use graph_code_challenge.Service
use graph_code_challenge.Repository.Tasks

module _ (repo : Repository) (impl : Implements repo) where
  create-sent :
      (req : CreateTaskRequest) (s : Session (task_service repo))
      → impl.IsSound s.store
      → let outcome = send (task_service repo) 201 (Service.create repo req s.store) s in
        (id : ℤ) × IsNew id (impl.live s.store) (impl.live outcome.1.store)
        × Does repo impl
            (
              record {
                status = 201;
                body = payload (create_response (record (new_task req) { id = id }));
              },
              Tasks.insert (record (new_task req) { id = id }) (impl.live s.store),
            )
            s
            outcome
  unfolding Service.create
  create-sent req s sound =
      let (creates, sound') = impl.create_law (new_task req) s.store sound in
      elim creates [
        | created id positive new e after ↦ (
          id,
          inr (positive, new),
          wrapped-sent repo impl 201 "taskservice: create task: " create_response
              (repo.create (new_task req)) s
              (
                ok (record (new_task req) { id = id }),
                Tasks.insert (record (new_task req) { id = id }) (impl.live s.store),
              )
              tt (written e after) sound',
        )
        | failed x e i after ↦
            let made : Result Task × List Task = (
              ok (record (new_task req) { id = pos 0 }),
              Tasks.insert (record (new_task req) { id = pos 0 }) (impl.live s.store),
            ) in
            (
              pos 0,
              inl (
                  ap impl.live (
                    wrapped-store repo impl 201 "taskservice: create task: " create_response
                      (repo.create (new_task req)) s)
                  ∙ after),
              wrapped-sent repo impl 201 "taskservice: create task: " create_response
                  (repo.create (new_task req)) s made tt (failed x e i after) sound',
            )
      ]

  delete-sent :
      (id : ℤ) (s : Session (task_service repo))
      → impl.IsSound s.store
      → Does repo impl
          (
            replied 204 (Tasks.delete_spec id (impl.live s.store)).0,
            (Tasks.delete_spec id (impl.live s.store)).1,
          )
          s
          (send (task_service repo) 204 (Service.delete repo (record { id = id }) s.store) s)
  unfolding Service.delete
  delete-sent id s sound =
      let (writes, sound') = impl.delete_law id s.store sound in
      rw (← map_ok-Unit (Tasks.delete_spec id (impl.live s.store)).0) (
        wrapped-sent repo impl 204 "taskservice: delete task: " (λ (_ : Unit {0}). tt)
          (repo.delete id) s (Tasks.delete_spec id (impl.live s.store))
          (delete_spec-IsTold id (impl.live s.store)) writes sound')

  pub delete-Does :
      (r : Request) (s : Session (task_service repo))
      → impl.IsSound s.store
      → Does repo impl
          (Table.delete_spec r (impl.live s.store))
          s
          (Handler.delete (task_service repo) r s)
  unfolding Handler.delete Service.delete is
  delete-Does r s sound = elim (Option-cases (parse_id r.id)) [
    | inl bad ↦ rw (bad, Handler.delete, Table.delete_spec) (kept repo impl _ s sound)
    | inr (id, good) ↦ rw (good, Handler.delete, Table.delete_spec) (delete-sent id s sound)
  ]

  pub get-Does :
      (r : Request) (s : Session (task_service repo))
      → impl.IsSound s.store
      → Does repo impl
          (Table.get_spec r (impl.live s.store))
          s
          (Handler.get (task_service repo) r s)
  unfolding Handler.get Service.get_by_id
  get-Does r s sound = elim (Option-cases (parse_id r.id)) [
    | inl bad ↦ rw (bad, Handler.get, Table.get_spec) (kept repo impl _ s sound)
    | inr (id, good) ↦
        let (reads, sound') = impl.get_by_id_law id s.store sound in
        rw (good, Handler.get, Table.get_spec)
          (wrapped-sent repo impl 200 "taskservice: get task: " get_response (repo.get_by_id id) s
            (Tasks.get_spec id (impl.live s.store), impl.live s.store)
            (found-IsTold (find id (impl.live s.store))) (Reads-Writes reads) sound')
  ]

  list_bound-Does :
      (b : ListTasksRequest ⊎ Response ListTasksResponse) (s : Session (task_service repo))
      → impl.IsSound s.store
      → Does repo impl
          (Table.list_expected b (impl.live s.store))
          s
          (list_bound (task_service repo) b s)
  unfolding write_error is
  list_bound-Does (inr bad) s sound = kept repo impl bad s sound
  list_bound-Does (inl req) s sound = elim (Option-cases (validate_list_request req).1) [
    | inl valid ↦
        let (reads, sound') = list_lem repo impl req s.store sound in
        rw (valid, list_bound, Table.list_expected)
          (sent repo impl 200 _ (Service.list repo req s.store).0 (Service.list repo req s.store).1
            s tt (Reads-Writes reads) sound')
    | inr (x, invalid) ↦
        rw (invalid ∙ ap some (list-error req invalid), list_bound, Table.list_expected)
          (kept repo impl _ s sound)
  ]

  update_bound-Does :
      (b : UpdateTaskRequest ⊎ Response UpdateTaskResponse) (id : ℤ)
      (s : Session (task_service repo))
      → impl.IsSound s.store
      → Does repo impl
          (Table.update_expected b id (impl.live s.store))
          s
          (update_bound (task_service repo) b id s)
  unfolding write_error is Service.update
  update_bound-Does (inr bad) id s sound = kept repo impl bad s sound
  update_bound-Does (inl body) id s sound =
      let req = record body { id = id } in
      elim (Option-cases (validate_update_request req).1) [
        | inl valid ↦
            let (writes, sound') = impl.update_law req s.store sound in
            rw (valid, update_bound, Table.update_expected)
              (wrapped-sent repo impl 200 "taskservice: update task: " update_response
                (repo.update req) s (Tasks.update_spec req (impl.live s.store))
                (update_spec-IsTold req (impl.live s.store)) writes sound')
        | inr (x, invalid) ↦
            rw (invalid ∙ ap some (update-error req invalid), update_bound, Table.update_expected)
              (kept repo impl _ s sound)
      ]

  pub list-Does :
      (r : Request) (s : Session (task_service repo))
      → impl.IsSound s.store
      → Does repo impl
          (Table.list_spec r (impl.live s.store))
          s
          (Handler.list (task_service repo) r s)
  unfolding Handler.list
  list-Does r s sound = list_bound-Does (bind_query r) s sound

  pub update-Does :
      (r : Request) (s : Session (task_service repo))
      → impl.IsSound s.store
      → Does repo impl
          (Table.update_spec r (impl.live s.store))
          s
          (Handler.update (task_service repo) r s)
  unfolding Handler.update
  update-Does r s sound = elim (Option-cases (parse_id r.id)) [
    | inl bad ↦ rw (bad, Handler.update, Table.update_spec) (kept repo impl _ s sound)
    | inr (id, good) ↦
        rw (good, Handler.update, Table.update_spec)
          (update_bound-Does (bind_json r.bind_update) id s sound)
  ]

  create_bound-Does :
      (b : CreateTaskRequest ⊎ Response CreateTaskResponse) (s : Session (task_service repo))
      → impl.IsSound s.store
      → let outcome = create_bound (task_service repo) b s in
        (id : ℤ) × IsNew id (impl.live s.store) (impl.live outcome.1.store)
        × Does repo impl (Table.create_expected id b (impl.live s.store)) s outcome
  unfolding write_error is
  create_bound-Does (inr bad) s sound = (pos 0, inl refl, kept repo impl bad s sound)
  create_bound-Does (inl req) s sound = elim (Option-cases (validate_create_request req).1) [
    | inl valid ↦ rw (valid, create_bound, Table.create_expected) (create-sent req s sound)
    | inr (x, invalid) ↦
        rw (invalid ∙ ap some (create-error req invalid), create_bound, Table.create_expected)
          (pos 0, inl refl, kept repo impl _ s sound)
  ]

  pub create-Does :
      (r : Request) (s : Session (task_service repo))
      → impl.IsSound s.store
      → let outcome = Handler.create (task_service repo) r s in
        (id : ℤ) × IsNew id (impl.live s.store) (impl.live outcome.1.store)
        × Does repo impl (Table.create_spec id r (impl.live s.store)) s outcome
  unfolding Handler.create
  create-Does r s sound = create_bound-Does (bind_json r.bind_create) s sound
