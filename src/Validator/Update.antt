-- ===== src/Validator/Update.antt =====
-- What `validate_update_request` accepts, and which message it reports under which field.
use mathlib.Core.Bool.{false≢true}
use graph_code_challenge.Prelude.{
  ◌&&◌, arith, Bool, All, ◌∙◌, ◌∷◌, inr, inl, Bool-cases, sym, String, count, pos, ◌≤◌, ◌≡◌, refl,
  ◌↔◌, ◌≤ℤ◌, true, false, Option, none, some, [], if◌then◌else◌,
}
use graph_code_challenge.Entity.{IsKnownStatus}
use graph_code_challenge.Param.{is_nil, UpdateTaskRequest, is_empty}
use graph_code_challenge.Validator.{
  Fields, set, set_given, result, validate_update_request, check_id, check_title, check_description,
  check_assignee, check_status, msg_update_empty,
}
use graph_code_challenge.Validator.Maps.{
  result-set_all_iff, set-empty, lookup-set_all, report, are_distinct, Checks, set_all, lookup,
  result-fields,
}
use graph_code_challenge.Validator.Checks.{
  check_id_iff, check_title_iff, check_description_iff, check_assignee_iff,
  check_status_required_iff,
}

abbrev Given : {A : Type 0} → (A → Type 0) → Option A → Type 0
Given P none = Unit
Given P (some a) = P a

-- Nothing is asked to change.
pub record HasNoField (req : UpdateTaskRequest) : Type 0 where
  pub no_title : req.title ≡ none
  pub no_description : req.description ≡ none
  pub no_status : req.status ≡ none
  pub no_assignee : req.assignee ≡ none

abbrev pub all_missing : Option String → Option String → Option String → Option String → Bool
all_missing none none none none = true
all_missing _ _ _ _ = false

all_missing_lem :
    (t d s a : Option String) → (is_nil t && is_nil d && is_nil s && is_nil a) ≡ all_missing t d s a
all_missing_lem none none none none = refl
all_missing_lem none none none (some a) = refl
all_missing_lem none none (some s) a = refl
all_missing_lem none (some d) s a = refl
all_missing_lem (some t) d s a = refl

is_nil-none : (o : Option String) → is_nil o ≡ true → o ≡ none
is_nil-none none e = refl
is_nil-none (some a) e = cc

-- The code's test for it.
is_empty-all_missing :
    (req : UpdateTaskRequest)
    → is_empty req ≡ all_missing req.title req.description req.status req.assignee
unfolding is_empty
is_empty-all_missing req = all_missing_lem req.title req.description req.status req.assignee

is_empty_iff : (req : UpdateTaskRequest) → (is_empty req ≡ true) ↔ HasNoField req
unfolding is_empty
is_empty_iff req = (
  λ e. record {
    no_title = is_nil-none req.title (ground arith);
    no_description = is_nil-none req.description (ground arith);
    no_status = is_nil-none req.status (ground arith);
    no_assignee = is_nil-none req.assignee (ground arith);
  },
  λ h. rw (h.no_title, h.no_description, h.no_status, h.no_assignee) refl,
)

-- The fields that are given are valid ones; of a status one of the three.
pub record IsValidUpdate (req : UpdateTaskRequest) : Type 0 where
  id_positive : pos 1 ≤ℤ req.id
  pub given : ¬ HasNoField req
  pub title_fits : Given (λ s. (1 ≤ count s) × (count s ≤ 200)) req.title
  pub description_fits : Given (λ s. count s ≤ 2000) req.description
  pub assignee_fits : Given (λ s. count s ≤ 100) req.assignee
  pub status_known : Given IsKnownStatus req.status

abbrev message : (String → String) → Option String → String
message check none = ""
message check (some s) = check s

set_given-eq-set :
    (f : Fields) (name : String) (check : String → String) (o : Option String)
    → set_given f name check o ≡ set f name (message check o)
set_given-eq-set f name check none = sym (set-empty f name)
set_given-eq-set f name check (some s) = refl

-- The checks of an update: of its fields, or of the request itself if it has none.
abbrev pub update_checks : UpdateTaskRequest → Checks
update_checks req =
    ("id", check_id req.id)
    ∷ (if all_missing req.title req.description req.status req.assignee
        then ("body", msg_update_empty) ∷ []
        else ("title", message check_title req.title)
          ∷ ("description", message check_description req.description)
          ∷ ("assignee", message check_assignee req.assignee)
          ∷ ("status", message (λ s. check_status s true) req.status)
          ∷ [])

update-set_all :
    (req : UpdateTaskRequest)
    → validate_update_request req ≡ result (set_all [] (update_checks req))
unfolding validate_update_request
update-set_all req = elim (Bool-cases (is_empty req)) [
  | inl e ↦ let missing = sym (is_empty-all_missing req) ∙ e in rw (e, missing)
  | inr e ↦
      let missing = sym (is_empty-all_missing req) ∙ e in rw (e, missing) (simp set_given-eq-set)
]

update-distinct : (req : UpdateTaskRequest) → are_distinct (update_checks req) ≡ true
update-distinct req =
    elim (Bool-cases (all_missing req.title req.description req.status req.assignee)) [
      | inl e ↦ rw e
      | inr e ↦ rw e
    ]

-- An update reports under each name what the check of that field says of a given value, and under
-- "body" that it has no field, in which case nothing but its id is checked.
pub validate_update_request-fields :
    (req : UpdateTaskRequest) (name : String)
    → lookup name (validate_update_request req).0 ≡ report name (update_checks req)
validate_update_request-fields req name =
    rw (update-set_all req, result-fields)
      (lookup-set_all (update_checks req) name (update-distinct req))

message_iff :
    (P : String → Type 0) (check : String → String) (o : Option String)
    → ((s : String) → (check s ≡ "") ↔ P s)
    → (message check o ≡ "") ↔ Given P o
message_iff P check none h = (λ _. tt, λ _. refl)
message_iff P check (some s) h = h s

update-checks_iff :
    (req : UpdateTaskRequest)
    → ((validate_update_request req).1 ≡ none) ↔ All (λ c. c.1 ≡ "") (update_checks req)
update-checks_iff req = rw update-set_all (result-set_all_iff (update_checks req))

given-checks_iff :
    (req : UpdateTaskRequest)
    → is_empty req ≡ false
    → All (λ c. c.1 ≡ "") (update_checks req) ↔ IsValidUpdate req
given-checks_iff req e =
    let title =
      message_iff (λ s. (1 ≤ count s) × (count s ≤ 200)) check_title req.title check_title_iff in
    let description =
      message_iff (λ s. count s ≤ 2000) check_description req.description check_description_iff in
    let assignee =
      message_iff (λ s. count s ≤ 100) check_assignee req.assignee check_assignee_iff in
    let status =
      message_iff IsKnownStatus (λ s. check_status s true) req.status check_status_required_iff in
    rw (sym (is_empty-all_missing req) ∙ e) (
      λ (i, (t, (d, (a, (s, _))))). record {
        id_positive = (check_id_iff req.id).0 i;
        given = λ h. let is = (is_empty_iff req).1 h in absurd (false≢true (sym e ∙ is));
        title_fits = title.0 t;
        description_fits = description.0 d;
        assignee_fits = assignee.0 a;
        status_known = status.0 s;
      },
      λ v. (
        (check_id_iff req.id).1 v.id_positive,
        (
          title.1 v.title_fits,
          (
            description.1 v.description_fits,
            (assignee.1 v.assignee_fits, (status.1 v.status_known, tt)),
          ),
        ),
      ),
    )

empty-checks :
    (req : UpdateTaskRequest) → is_empty req ≡ true → ¬ All (λ c. c.1 ≡ "") (update_checks req)
empty-checks req e = rw (sym (is_empty-all_missing req) ∙ e) (λ (i, (b, _)). cc)

-- An update passes exactly when its id is positive, it has a field, and each given field is valid.
pub validate_update_request_iff :
    (req : UpdateTaskRequest) → ((validate_update_request req).1 ≡ none) ↔ IsValidUpdate req
validate_update_request_iff req = elim (Bool-cases (is_empty req)) [
  | inl e ↦ (
    λ h. absurd (empty-checks req e ((update-checks_iff req).0 h)),
    λ v. absurd (v.given ((is_empty_iff req).0 e)),
  )
  | inr e ↦ (
    λ h. (given-checks_iff req e).0 ((update-checks_iff req).0 h),
    λ v. (update-checks_iff req).1 ((given-checks_iff req e).1 v),
  )
]
