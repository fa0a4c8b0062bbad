-- ===== src/Validator/Create.antt =====
-- What `validate_create_request` accepts, and which message it reports under which field.
use graph_code_challenge.Prelude.{◌∷◌, String, count, ◌≤◌, ◌≡◌, refl, ◌↔◌, ◌⊎◌, false, none, []}
use graph_code_challenge.Entity.{IsKnownStatus}
use graph_code_challenge.Param.{CreateTaskRequest}
use graph_code_challenge.Validator.{
  validate_create_request, check_title, check_description, check_assignee, check_status,
}
use graph_code_challenge.Validator.Maps.{
  result-set_all_iff, lookup-set_all, report, Checks, lookup, result-fields,
}
use graph_code_challenge.Validator.Checks.{
  check_title_iff, check_description_iff, check_assignee_iff, check_status_optional_iff,
}

pub record IsValidCreate (req : CreateTaskRequest) : Type 0 where
  pub titled : 1 ≤ count req.title
  pub title_fits : count req.title ≤ 200
  pub description_fits : count req.description ≤ 2000
  pub assignee_fits : count req.assignee ≤ 100
  pub status_known : (req.status ≡ "") ⊎ IsKnownStatus req.status

-- The checks of a create request, each under the name of its field.
abbrev pub create_checks : CreateTaskRequest → Checks
create_checks req =
    ("title", check_title req.title)
    ∷ ("description", check_description req.description)
    ∷ ("assignee", check_assignee req.assignee)
    ∷ ("status", check_status req.status false)
    ∷ []

-- A create request passes exactly when its title has 1 to 200 characters, its description at most
-- 2000, its assignee at most 100, and its status is omitted or one of the three.
pub validate_create_request_iff :
    (req : CreateTaskRequest) → ((validate_create_request req).1 ≡ none) ↔ IsValidCreate req
unfolding validate_create_request
validate_create_request_iff req =
    let checks = result-set_all_iff (create_checks req) in
    (
      λ h.
          let (t, (d, (a, (s, _)))) = checks.0 h in
          record {
            titled = ((check_title_iff req.title).0 t).0;
            title_fits = ((check_title_iff req.title).0 t).1;
            description_fits = (check_description_iff req.description).0 d;
            assignee_fits = (check_assignee_iff req.assignee).0 a;
            status_known = (check_status_optional_iff req.status).0 s;
          },
      λ v. checks.1 (
        (check_title_iff req.title).1 (v.titled, v.title_fits),
        (
          (check_description_iff req.description).1 v.description_fits,
          (
            (check_assignee_iff req.assignee).1 v.assignee_fits,
            ((check_status_optional_iff req.status).1 v.status_known, tt),
          ),
        ),
      ),
    )

-- Each of the four fields carries the message of its own check, if that is not empty, and nothing
-- stands under any other name.
pub validate_create_request-fields :
    (req : CreateTaskRequest) (name : String)
    → lookup name (validate_create_request req).0 ≡ report name (create_checks req)
unfolding validate_create_request
validate_create_request-fields req name =
    rw result-fields (lookup-set_all (create_checks req) name refl)
