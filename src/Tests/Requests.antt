-- ===== src/Tests/Requests.antt =====
-- internal/validator/taskvalidator at concrete requests.
use graph_code_challenge.Validator.Listing.{validate_list_request_iff, IsValidList}
use graph_code_challenge.Validator.Update.{
  validate_update_request-fields, update_checks, validate_update_request_iff, IsValidUpdate,
}
use graph_code_challenge.Validator.Create.{
  validate_create_request-fields, create_checks, validate_create_request_iff, IsValidCreate,
}
use graph_code_challenge.Validator.Maps.{report, lookup}
use graph_code_challenge.Validator.{
  validate_create_request, validate_list_request, validate_update_request,
}
use graph_code_challenge.Param.{UpdateTaskRequest, ListTasksRequest, CreateTaskRequest}
use graph_code_challenge.Prelude.{◌↔◌, ◌≡◌, negsuc, pos, some, none}

abbrev documented : CreateTaskRequest
documented = record {
  title = "Document the API";
  description = "Generate and verify the Swagger specification";
  status = "pending";
  assignee = "alex";
}

abbrev pub untitled : CreateTaskRequest
untitled = record { title = ""; description = ""; status = "later"; assignee = "" }

abbrev pub renamed : UpdateTaskRequest
renamed = record {
  id = pos 2;
  title = some "Publish the API docs";
  description = none;
  status = some "finished";
  assignee = none;
}

abbrev pub done_page : ListTasksRequest
done_page = record { status = "done"; assignee = ""; cursor = negsuc 0; limit = pos 0 }

validate_create_request_iff_example :
    ((validate_create_request documented).1 ≡ none) ↔ IsValidCreate documented
validate_create_request_iff_example = validate_create_request_iff documented

validate_create_request-fields_example :
    lookup "status" (validate_create_request untitled).0 ≡ report "status" (create_checks untitled)
validate_create_request-fields_example = validate_create_request-fields untitled "status"

validate_update_request_iff_example :
    ((validate_update_request renamed).1 ≡ none) ↔ IsValidUpdate renamed
validate_update_request_iff_example = validate_update_request_iff renamed

validate_update_request-fields_example :
    lookup "title" (validate_update_request renamed).0 ≡ report "title" (update_checks renamed)
validate_update_request-fields_example = validate_update_request-fields renamed "title"

validate_list_request_iff_example :
    ((validate_list_request done_page).1 ≡ none) ↔ IsValidList done_page
validate_list_request_iff_example = validate_list_request_iff done_page
