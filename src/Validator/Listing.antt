-- ===== src/Validator/Listing.antt =====
-- What `validate_list_request` accepts, and which message it reports under which field.
use graph_code_challenge.Prelude.{
  ◌∷◌, String, count, pos, ◌≤◌, ◌≡◌, refl, ◌↔◌, ◌⊎◌, ◌≤ℤ◌, false, none, [],
}
use graph_code_challenge.Entity.{IsKnownStatus}
use graph_code_challenge.Param.{ListTasksRequest}
use graph_code_challenge.Validator.{
  validate_list_request, check_assignee, check_status, check_cursor,
}
use graph_code_challenge.Validator.Maps.{
  result-set_all_iff, lookup-set_all, report, Checks, lookup, result-fields,
}
use graph_code_challenge.Validator.Checks.{
  check_assignee_iff, check_cursor_iff, check_status_optional_iff,
}

pub record IsValidList (req : ListTasksRequest) : Type 0 where
  pub assignee_fits : count req.assignee ≤ 100
  pub status_known : (req.status ≡ "") ⊎ IsKnownStatus req.status
  cursor_nonneg : pos 0 ≤ℤ req.cursor

abbrev pub list_checks : ListTasksRequest → Checks
list_checks req =
    ("assignee", check_assignee req.assignee)
    ∷ ("status", check_status req.status false)
    ∷ ("cursor", check_cursor req.cursor)
    ∷ []

-- Each of the three fields carries the message of its own check, if that is not empty, and nothing
-- stands under any other name.
validate_list_request-fields :
    (req : ListTasksRequest) (name : String)
    → lookup name (validate_list_request req).0 ≡ report name (list_checks req)
unfolding validate_list_request
validate_list_request-fields req name =
    rw result-fields (lookup-set_all (list_checks req) name refl)

-- A list request passes exactly when its assignee has at most 100 characters, its status is omitted
-- or one of the three, and its cursor is not negative. Any limit passes.
pub validate_list_request_iff :
    (req : ListTasksRequest) → ((validate_list_request req).1 ≡ none) ↔ IsValidList req
unfolding validate_list_request
validate_list_request_iff req =
    let checks = result-set_all_iff (list_checks req) in
    (
      λ h.
          let (a, (s, (c, _))) = checks.0 h in
          record {
            assignee_fits = (check_assignee_iff req.assignee).0 a;
            status_known = (check_status_optional_iff req.status).0 s;
            cursor_nonneg = (check_cursor_iff req.cursor).0 c;
          },
      λ v. checks.1 (
        (check_assignee_iff req.assignee).1 v.assignee_fits,
        (
          (check_status_optional_iff req.status).1 v.status_known,
          ((check_cursor_iff req.cursor).1 v.cursor_nonneg, tt),
        ),
      ),
    )
