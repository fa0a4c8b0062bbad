-- ===== src/Handler/Table.antt =====
-- What each handler answers over the abstract table of the live tasks, and the table that it leaves.
use graph_code_challenge.Service.{new_task}
use graph_code_challenge.Service.Pages.{page_size, page_response}
use graph_code_challenge.Validator.{
  validate_list_request, validate_update_request, validate_create_request,
}
use graph_code_challenge.Entity.{Task}
use graph_code_challenge.Param.{
  new_task_info, GetTaskResponse, CreateTaskResponse, DeleteTaskResponse, CreateTaskRequest,
  ListTasksResponse, UpdateTaskResponse, ListTasksRequest, UpdateTaskRequest,
}
use graph_code_challenge.Prelude.{◌≤ℤ◌, ◌≡◌, pos, filterb, ◌⊎◌, ℤ, inr, inl, some, none}
use graph_code_challenge.Repository.Tasks
use graph_code_challenge.Repository.Tasks.{find, insert, matches}
use graph_code_challenge.Errors.{ok, err, Result, map_ok}
use graph_code_challenge.Handler.{
  ℕ, List, write_message, write_fields, payload, Response, Request, msg_not_found, msg_invalid_id,
  parse_id, bind_json, bind_query,
}

-- A result as a response: an error of the table is that of a missing task.
abbrev pub replied : {A : Type 0} → ℕ → Result A → Response A
replied status (ok a) = record { status = status; body = payload a }
replied status (err e) = write_message 404 msg_not_found

abbrev pub create_response : Task → CreateTaskResponse
create_response t = record { task = new_task_info t }

-- The id is the one that the table gives a new task.
abbrev pub create_expected :
    ℤ
    → CreateTaskRequest ⊎ Response CreateTaskResponse
    → List Task
    → Response CreateTaskResponse × List Task
create_expected id (inr bad) ts = (bad, ts)
create_expected id (inl req) ts = elim (validate_create_request req).1 [
  | some e ↦ (write_fields (validate_create_request req).0, ts)
  | none ↦
      let t = record (new_task req) { id = id } in
      (record { status = 201; body = payload (create_response t) }, insert t ts)
]

abbrev pub create_spec : ℤ → Request → List Task → Response CreateTaskResponse × List Task
create_spec id r ts = create_expected id (bind_json r.bind_create) ts

abbrev pub get_response : Task → GetTaskResponse
get_response t = record { task = new_task_info t }

abbrev pub update_response : Task → UpdateTaskResponse
update_response t = record { task = new_task_info t }

abbrev pub get_spec : Request → List Task → Response GetTaskResponse × List Task
get_spec r ts = elim (parse_id r.id) [
  | none ↦ (write_message 400 msg_invalid_id, ts)
  | some id ↦ (replied 200 (map_ok get_response (Tasks.get_spec id ts)), ts)
]

abbrev pub list_expected :
    ListTasksRequest ⊎ Response ListTasksResponse
    → List Task
    → Response ListTasksResponse × List Task
list_expected (inr bad) ts = (bad, ts)
list_expected (inl req) ts = elim (validate_list_request req).1 [
  | some e ↦ (write_fields (validate_list_request req).0, ts)
  | none ↦ (
    record {
      status = 200;
      body = payload (page_response (page_size req.limit) (filterb (matches req) ts));
    },
    ts,
  )
]

abbrev pub list_spec : Request → List Task → Response ListTasksResponse × List Task
list_spec r ts = list_expected (bind_query r) ts

abbrev pub update_expected :
    UpdateTaskRequest ⊎ Response UpdateTaskResponse
    → ℤ
    → List Task
    → Response UpdateTaskResponse × List Task
update_expected (inr bad) id ts = (bad, ts)
update_expected (inl body) id ts =
    let req = record body { id = id } in
    elim (validate_update_request req).1 [
      | some e ↦ (write_fields (validate_update_request req).0, ts)
      | none ↦ (
        replied 200 (map_ok update_response (Tasks.update_spec req ts).0),
        (Tasks.update_spec req ts).1,
      )
    ]

abbrev pub update_spec : Request → List Task → Response UpdateTaskResponse × List Task
update_spec r ts = elim (parse_id r.id) [
  | none ↦ (write_message 400 msg_invalid_id, ts)
  | some id ↦ update_expected (bind_json r.bind_update) id ts
]

abbrev pub delete_spec : Request → List Task → Response DeleteTaskResponse × List Task
delete_spec r ts = elim (parse_id r.id) [
  | none ↦ (write_message 400 msg_invalid_id, ts)
  | some id ↦ (replied 204 (Tasks.delete_spec id ts).0, (Tasks.delete_spec id ts).1)
]

-- A creation chose a new id, unless it left the table.
abbrev pub IsNew : ℤ → List Task → List Task → Type 0
IsNew id before after = (after ≡ before) ⊎ ((pos 1 ≤ℤ id) × (find id before ≡ none))
