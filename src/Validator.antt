-- ===== src/Validator.antt =====
-- internal/validator/taskvalidator. `map[string]string` is an association list whose keys are
-- distinct; `nil` is the empty one, as `len` cannot tell them apart. A text is valid UTF-8, so
-- `utf8.RuneCountInString` is its number of characters.
pub mod Checks
pub mod Maps
pub mod Create
pub mod Update
pub mod Listing
use graph_code_challenge.Prelude.{
  String, count, ℤ, pos, Bool, true, false, not, Option, none, some, List, [], ◌∷◌, ◌==◌, map, ltb,
  ltb_ℤ, if◌then◌else◌, sprintf, decimal, join,
}
use graph_code_challenge.Errors.{Error, sentinel, wrapped, validation}
use graph_code_challenge.Entity.{
  TaskStatus, task_status_list, is_valid, max_task_title_len, max_task_description_len,
  max_task_assignee_len,
}
use graph_code_challenge.Param.{CreateTaskRequest, UpdateTaskRequest, ListTasksRequest, is_empty}

abbrev msg_id_invalid : String
msg_id_invalid = "id must be a positive number"

abbrev msg_title_required : String
msg_title_required = "title is required"

abbrev msg_title_too_long : String
msg_title_too_long = "title must not exceed %d characters"

abbrev msg_desc_too_long : String
msg_desc_too_long = "description must not exceed %d characters"

abbrev msg_assignee_too_long : String
msg_assignee_too_long = "assignee must not exceed %d characters"

abbrev msg_status_required : String
msg_status_required = "status is required"

abbrev msg_status_invalid : String
msg_status_invalid = "status must be one of: %s"

abbrev msg_cursor_negative : String
msg_cursor_negative = "cursor must not be negative"

abbrev pub msg_update_empty : String
msg_update_empty = "at least one field must be provided"

unfoldable pub check_id : ℤ → String
check_id id = if ltb_ℤ id (pos 1) then msg_id_invalid else ""

unfoldable pub check_title : String → String
unfolding sprintf decimal
check_title title =
    if title == ""
    then msg_title_required
    else if ltb max_task_title_len (count title)
    then sprintf msg_title_too_long (decimal max_task_title_len ∷ [])
    else ""

unfoldable pub check_description : String → String
unfolding sprintf decimal
check_description description =
    if ltb max_task_description_len (count description)
    then sprintf msg_desc_too_long (decimal max_task_description_len ∷ [])
    else ""

unfoldable pub check_assignee : String → String
unfolding sprintf decimal
check_assignee assignee =
    if ltb max_task_assignee_len (count assignee)
    then sprintf msg_assignee_too_long (decimal max_task_assignee_len ∷ [])
    else ""

unfoldable status_names : String
unfolding join
status_names = join task_status_list ", "

unfoldable pub check_status : TaskStatus → Bool → String
unfolding is_valid sprintf status_names
check_status status required =
    if status == ""
    then (if required then msg_status_required else "")
    else if not (is_valid status)
    then sprintf msg_status_invalid (status_names ∷ [])
    else ""

unfoldable pub check_cursor : ℤ → String
check_cursor cursor = if ltb_ℤ cursor (pos 0) then msg_cursor_negative else ""

abbrev pub Fields : Type 0
Fields = List (String × String)

-- `fields[name] = message`
unfoldable pub insert : Fields → String → String → Fields
insert [] name message = (name, message) ∷ []
insert ((k, m) ∷ fields) name message =
    if k == name then (name, message) ∷ fields else (k, m) ∷ insert fields name message

unfoldable pub set : Fields → String → String → Fields
unfolding insert
set fields name message = if message == "" then fields else insert fields name message

abbrev pub err_invalid_request : Error
err_invalid_request = wrapped "taskvalidator: invalid request: " (sentinel validation)

unfoldable pub result : Fields → Fields × Option Error
result [] = ([], none)
result (f ∷ fields) = (f ∷ fields, some err_invalid_request)

unfoldable pub validate_create_request : CreateTaskRequest → Fields × Option Error
validate_create_request req =
    let titled = set [] "title" (check_title req.title) in
    let described = set titled "description" (check_description req.description) in
    let assigned = set described "assignee" (check_assignee req.assignee) in
    result (set assigned "status" (check_status req.status false))

-- `if p != nil { set(fields, name, check(*p)) }`
abbrev set_given : Fields → String → (String → String) → Option String → Fields
set_given fields name check none = fields
set_given fields name check (some value) = set fields name (check value)

unfoldable pub validate_update_request : UpdateTaskRequest → Fields × Option Error
validate_update_request req =
    let identified = set [] "id" (check_id req.id) in
    if is_empty req
    then result (set identified "body" msg_update_empty)
    else let titled = set_given identified "title" check_title req.title in
      let described = set_given titled "description" check_description req.description in
      let assigned = set_given described "assignee" check_assignee req.assignee in
      result (set_given assigned "status" (λ status. check_status status true) req.status)

unfoldable pub validate_list_request : ListTasksRequest → Fields × Option Error
validate_list_request req =
    let assigned = set [] "assignee" (check_assignee req.assignee) in
    let known = set assigned "status" (check_status req.status false) in
    result (set known "cursor" (check_cursor req.cursor))
