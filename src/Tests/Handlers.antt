-- ===== src/Tests/Handlers.antt =====
-- internal/delivery/httpserver/taskhandler over a table that is kept in memory.
use graph_code_challenge.Validator.Listing.{IsValidList}
use graph_code_challenge.Validator.{
  validate_list_request, validate_update_request, validate_create_request,
}
use graph_code_challenge.Repository.Tasks.{find}
use graph_code_challenge.Param.{ListTasksResponse}
use graph_code_challenge.Handler.Ids.{parse_id_iff, parse_id-format_int}
use graph_code_challenge.Handler.Lookup.{get-GetAnswer, GetAnswer}
use graph_code_challenge.Validator.Update.{IsValidUpdate}
use graph_code_challenge.Tests.Operations.{two_tasks-IsTable, two_tasks}
use graph_code_challenge.Tests.Requests.{renamed, done_page, untitled}
use graph_code_challenge.Validator.Create.{IsValidCreate}
use graph_code_challenge.Strconv.{parse_uint, parse_int}
use graph_code_challenge.Handler.Gate.{list-Gated, update-Gated, create-Gated, Gated}
use graph_code_challenge.Tests.Memory.{memory_laws, memory}
use graph_code_challenge.Prelude.{
  leb_ℤ, none, arith, format_int, ◌≡◌, String, refl, inl, pos, some, [],
}
use graph_code_challenge.Handler
use graph_code_challenge.Service
use graph_code_challenge.Strconv
use graph_code_challenge.Handler.{check_numbers, parse_id, bind_query, bound, send}
use graph_code_challenge.Handler.{Request, Session, TaskService, Response, task_service}

abbrev no_query : String → String
no_query name = ""

abbrev pub request : Request
request = record {
  id = "2";
  query = no_query;
  bind_create = bound untitled;
  bind_update = bound renamed;
  bind_list = some done_page;
}

abbrev pub session : Session (task_service memory)
session = record { store = two_tasks; logged = [] }

parsed_two : parse_int "2" ≡ Strconv.number (pos 2)
unfolding parse_int parse_uint
parsed_two = refl

query_bound : bind_query {B = ListTasksResponse} request ≡ inl done_page
unfolding bind_query check_numbers
query_bound = refl

request_id : parse_id request.id ≡ some (pos 2)
request_id = (parse_id_iff "2" (pos 2)).1 (parsed_two, omega arith)

get-GetAnswer_example :
    GetAnswer
      (task_service memory)
      (find (pos 2) two_tasks)
      []
      (Handler.get (task_service memory) request session).0
      (Handler.get (task_service memory) request session).1.logged
unfolding memory_laws
get-GetAnswer_example =
    get-GetAnswer memory memory_laws request (pos 2) session request_id two_tasks-IsTable

create-Gated_example :
    Gated
      (IsValidCreate untitled)
      (validate_create_request untitled).0
      (send (task_service memory) 201 (Service.create memory untitled two_tasks) session)
      session
      (Handler.create (task_service memory) request session)
create-Gated_example = create-Gated (task_service memory) request untitled session refl

update-Gated_example :
    Gated
      (IsValidUpdate renamed)
      (validate_update_request renamed).0
      (send (task_service memory) 200 (Service.update memory renamed two_tasks) session)
      session
      (Handler.update (task_service memory) request session)
update-Gated_example =
    update-Gated (task_service memory) request renamed (pos 2) session request_id refl

list-Gated_example :
    Gated
      (IsValidList done_page)
      (validate_list_request done_page).0
      (send (task_service memory) 200 (Service.list memory done_page two_tasks) session)
      session
      (Handler.list (task_service memory) request session)
list-Gated_example = list-Gated (task_service memory) request done_page session query_bound

parse_id-format_int_example : parse_id (format_int (pos 0)) ≡ none
unfolding leb_ℤ
parse_id-format_int_example = parse_id-format_int (pos 0) (omega arith, omega arith)
