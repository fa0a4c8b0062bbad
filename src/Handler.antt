-- ===== src/Handler.antt =====
-- internal/delivery/httpserver/taskhandler/handler.go: the handlers, over any task service. Gin is a
-- parameter: what it reads of a request, and how it binds a body or a query to a request type.
pub mod Ids
pub mod Gate
pub mod Lookup
pub mod Table
pub mod Sent
pub mod Passed
pub mod Sessions
pub mod Traces
use graph_code_challenge.Strconv.{parse_int, Parsed}
use graph_code_challenge.Param.{
  DeleteTaskRequest, GetTaskRequest, GetTaskResponse, UpdateTaskResponse, UpdateTaskRequest,
  CreateTaskRequest, DeleteTaskResponse, CreateTaskResponse, ListTasksResponse, ListTasksRequest,
}
use graph_code_challenge.Repository.{Repository}
use graph_code_challenge.Errors.{validation, not_found, is, Result, Error, err, ok}
use graph_code_challenge.Prelude.{
  ◌++◌, ltb_ℤ, sprintf, ◌==◌, ◌∷◌, ℤ, if◌then◌else◌, Option, List, String, ℕ, ◌⊎◌, inr, inl, pos,
  some, none, [],
}
use graph_code_challenge.Strconv
use graph_code_challenge.Service
use graph_code_challenge.Validator.{
  validate_update_request, validate_create_request, validate_list_request, insert, Fields,
}
use graph_code_challenge.Exec.{Exec}

abbrev msg_invalid_body : String
msg_invalid_body = "request body is not valid JSON"

abbrev msg_invalid_query : String
msg_invalid_query = "query parameters are not valid"

abbrev msg_invalid_id : String
msg_invalid_id = "id must be a positive number"

abbrev pub msg_not_found : String
msg_not_found = "task not found"

abbrev msg_invalid_input : String
msg_invalid_input = "invalid input"

abbrev pub msg_internal : String
msg_internal = "internal server error"

abbrev msg_wrong_type : String
msg_wrong_type = "%s must be %s, got %s"

abbrev msg_not_number : String
msg_not_number = "%s must be a whole number"

abbrev msg_number_range : String
msg_number_range = "%s is out of range"

abbrev numeric_query_params : List String
numeric_query_params = "cursor" ∷ "limit" ∷ []

-- The interface that the handlers consume.
pub record TaskService : Type 1 where
  pub State : Type 0
  pub create : CreateTaskRequest → Exec State CreateTaskResponse
  pub get_by_id : GetTaskRequest → Exec State GetTaskResponse
  pub list : ListTasksRequest → Exec State ListTasksResponse
  pub update : UpdateTaskRequest → Exec State UpdateTaskResponse
  pub delete : DeleteTaskRequest → Exec State DeleteTaskResponse

-- The service of internal/service/taskservice is one.
abbrev pub task_service : Repository → TaskService
task_service repo = record {
  State = repo.State;
  create = Service.create repo;
  get_by_id = Service.get_by_id repo;
  list = Service.list repo;
  update = Service.update repo;
  delete = Service.delete repo;
}

-- The kinds of a Go type that the program tells apart.
pub data Kind : Type 0 where
  string_kind bool_kind list_kind object_kind number_kind : Kind

-- What binding a body gives: a request, or the error `json.UnmarshalTypeError`, or another one.
pub data Bound (A : Type 0) : Type 0 where
  bound : A → Bound A
  wrong_type : String → Kind → String → Bound A
  unreadable : Bound A

-- A request, as gin gives access to it.
pub record Request : Type 0 where
  pub id : String
  pub query : String → String
  pub bind_create : Bound CreateTaskRequest
  pub bind_update : Bound UpdateTaskRequest
  pub bind_list : Option ListTasksRequest

pub record ErrorResponse : Type 0 where
  pub message : String
  pub errors : Fields

pub data Body (A : Type 0) : Type 0 where
  payload : A → Body A
  problem : ErrorResponse → Body A

pub record Response (A : Type 0) : Type 0 where
  pub status : ℕ
  pub body : Body A

abbrev pub write_message : {A : Type 0} → ℕ → String → Response A
write_message status message = record {
  status = status;
  body = problem (record { message = message; errors = [] });
}

abbrev pub write_fields : {A : Type 0} → Fields → Response A
write_fields fields = record {
  status = 400;
  body = problem (record { message = msg_invalid_input; errors = fields });
}

abbrev json_type_name : Kind → String
json_type_name string_kind = "a string"
json_type_name bool_kind = "a boolean"
json_type_name list_kind = "an array"
json_type_name object_kind = "an object"
json_type_name number_kind = "a number"

-- `parseID`, without the response that it writes: `none` stands for that.
unfoldable pub parse_id : String → Option ℤ
parse_id raw = elim (parse_int raw) [
  | Strconv.number id ↦ if ltb_ℤ id (pos 1) then none else some id
  | Strconv.bad_syntax ↦ none
  | Strconv.out_of_range ↦ none
]

-- The response that `bindJSON` writes, if binding failed.
unfoldable pub bind_json : {A B : Type 0} → Bound A → A ⊎ Response B
bind_json (bound req) = inl req
bind_json (wrong_type field kind got) = inr (
    if field == ""
    then write_message 400 msg_invalid_body
    else write_fields
        (insert [] field (sprintf msg_wrong_type (field ∷ json_type_name kind ∷ got ∷ []))))
bind_json unreadable = inr (write_message 400 msg_invalid_body)

-- The loop of `bindQuery`: which numbers of the query are none.
abbrev check_number : String → Parsed ℤ → Fields → Fields
check_number name (Strconv.number n) fields = fields
check_number name Strconv.out_of_range fields =
    insert fields name (sprintf msg_number_range (name ∷ []))
check_number name Strconv.bad_syntax fields =
    insert fields name (sprintf msg_not_number (name ∷ []))

unfoldable pub check_numbers : List String → (String → String) → Fields → Fields
check_numbers [] query fields = fields
check_numbers (name ∷ names) query fields =
    let checked =
      if query name == "" then fields else check_number name (parse_int (query name)) fields in
    check_numbers names query checked

abbrev bind_checked :
    {B : Type 0} → Fields → Option ListTasksRequest → ListTasksRequest ⊎ Response B
bind_checked [] (some req) = inl req
bind_checked [] none = inr (write_message 400 msg_invalid_query)
bind_checked (f ∷ fields) req = inr (write_fields (f ∷ fields))

unfoldable pub bind_query : {B : Type 0} → Request → ListTasksRequest ⊎ Response B
bind_query r = bind_checked (check_numbers numeric_query_params r.query []) r.bind_list

-- What a handler acts on: the service's state, and the errors that were logged.
pub record Session (svc : TaskService) : Type 0 where
  pub store : svc.State
  pub logged : List Error

module _ (svc : TaskService) where
  unfoldable pub write_error :
      {A : Type 0} → Error → Fields → Session svc → Response A × Session svc
  write_error e fields s =
      if is e not_found
      then (write_message 404 msg_not_found, s)
      else if is e validation
      then (write_fields fields, s)
      else (write_message 500 msg_internal, record s { logged = s.logged ++ e ∷ [] })

  abbrev pub send : {A : Type 0} → ℕ → Result A × svc.State → Session svc → Response A × Session svc
  send status (ok resp, store) s =
      (record { status = status; body = payload resp }, record s { store = store })
  send status (err e, store) s = write_error e [] (record s { store = store })

  abbrev pub create_bound :
      CreateTaskRequest ⊎ Response CreateTaskResponse
      → Session svc
      → Response CreateTaskResponse × Session svc
  create_bound (inr bad) s = (bad, s)
  create_bound (inl req) s = elim (validate_create_request req).1 [
    | some e ↦ write_error e (validate_create_request req).0 s
    | none ↦ send 201 (svc.create req s.store) s
  ]

  unfoldable pub create : Request → Session svc → Response CreateTaskResponse × Session svc
  create r s = create_bound (bind_json r.bind_create) s

  unfoldable pub get : Request → Session svc → Response GetTaskResponse × Session svc
  get r s = elim (parse_id r.id) [
    | none ↦ (write_message 400 msg_invalid_id, s)
    | some id ↦ send 200 (svc.get_by_id (record { id = id }) s.store) s
  ]

  abbrev pub list_bound :
      ListTasksRequest ⊎ Response ListTasksResponse
      → Session svc
      → Response ListTasksResponse × Session svc
  list_bound (inr bad) s = (bad, s)
  list_bound (inl req) s = elim (validate_list_request req).1 [
    | some e ↦ write_error e (validate_list_request req).0 s
    | none ↦ send 200 (svc.list req s.store) s
  ]

  unfoldable pub list : Request → Session svc → Response ListTasksResponse × Session svc
  list r s = list_bound (bind_query r) s

  abbrev pub update_bound :
      UpdateTaskRequest ⊎ Response UpdateTaskResponse
      → ℤ
      → Session svc
      → Response UpdateTaskResponse × Session svc
  update_bound (inr bad) id s = (bad, s)
  update_bound (inl body) id s =
      let req = record body { id = id } in
      elim (validate_update_request req).1 [
        | some e ↦ write_error e (validate_update_request req).0 s
        | none ↦ send 200 (svc.update req s.store) s
      ]

  unfoldable pub update : Request → Session svc → Response UpdateTaskResponse × Session svc
  update r s = elim (parse_id r.id) [
    | none ↦ (write_message 400 msg_invalid_id, s)
    | some id ↦ update_bound (bind_json r.bind_update) id s
  ]

  -- A deletion that succeeds has no body; `payload tt` stands for none.
  unfoldable pub delete : Request → Session svc → Response DeleteTaskResponse × Session svc
  delete r s = elim (parse_id r.id) [
    | none ↦ (write_message 400 msg_invalid_id, s)
    | some id ↦ send 204 (svc.delete (record { id = id }) s.store) s
  ]
