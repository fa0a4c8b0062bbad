-- ===== src/Handler/Gate.antt =====
-- Only requests that validate reach the service.
use graph_code_challenge.Validator.Update.{validate_update_request_iff, IsValidUpdate}
use graph_code_challenge.Validator.Listing.{validate_list_request_iff, IsValidList}
use graph_code_challenge.Validator.Create.{validate_create_request_iff, IsValidCreate}
use graph_code_challenge.Param.{
  is_empty, ListTasksResponse, UpdateTaskRequest, ListTasksRequest, CreateTaskRequest,
}
use graph_code_challenge.Errors.{is, Error}
use graph_code_challenge.Validator.{
  validate_update_request, validate_list_request, validate_create_request, err_invalid_request,
  result, Fields,
}
use graph_code_challenge.Prelude.{
  sym, Bool-cases, ap, ℤ, ◌∙◌, refl, Option-cases, ◌≡◌, inr, inl, some, [],
}
use graph_code_challenge.Handler.{
  problem, create_bound, update_bound, list_bound, parse_id, bind_query, bound, ◌∷◌, Request,
  Session, Response, write_error, bind_json, TaskService, create, update, list, send,
}

-- The outcome of a request: passed on to the service as it is, or answered with status 400 and the
-- messages of its fields, in which case nothing is logged and the service is not called.
pub data Gated {A : Type 0} {svc : TaskService} (IsValid : Type 0) (fields : Fields)
    (passed : Response A × Session svc) (s : Session svc) (outcome : Response A × Session svc)
    : Type 0 where
  passed_on : IsValid → outcome ≡ passed → Gated IsValid fields passed s outcome
  refused :
      ¬ IsValid
      → outcome ≡ (
        record {
          status = 400;
          body = problem (record { message = "invalid input"; errors = fields });
        },
        s,
      )
      → Gated IsValid fields passed s outcome

result-validation :
    (fields : Fields) {e : Error} → (result fields).1 ≡ some e → e ≡ err_invalid_request
unfolding result
result-validation [] h = cc
result-validation (f ∷ fields) h = cc

pub create-error :
    (req : CreateTaskRequest) {e : Error}
    → (validate_create_request req).1 ≡ some e
    → e ≡ err_invalid_request
unfolding validate_create_request
create-error req h = result-validation _ h

pub update-error :
    (req : UpdateTaskRequest) {e : Error}
    → (validate_update_request req).1 ≡ some e
    → e ≡ err_invalid_request
unfolding validate_update_request
update-error req h = elim (Bool-cases (is_empty req)) [
  | inl empty ↦ result-validation _ (rw empty at h)
  | inr given ↦ result-validation _ (rw given at h)
]

pub list-error :
    (req : ListTasksRequest) {e : Error}
    → (validate_list_request req).1 ≡ some e
    → e ≡ err_invalid_request
unfolding validate_list_request
list-error req h = result-validation _ h

module _ (svc : TaskService) where
  -- A body that binds is passed on to the service exactly when it validates; otherwise it is answered
  -- with status 400 and the messages of its fields.
  pub create-Gated :
      (r : Request) (req : CreateTaskRequest) (s : Session svc)
      → r.bind_create ≡ bound req
      → Gated
          (IsValidCreate req)
          (validate_create_request req).0
          (send svc 201 (svc.create req s.store) s)
          s
          (create svc r s)
  unfolding create bind_json write_error is
  create-Gated r req s e = elim (Option-cases (validate_create_request req).1) [
    | inl valid ↦
        passed_on ((validate_create_request_iff req).0 valid)
          (rw (e, create) (rw (valid, create_bound, bind_json) refl))
    | inr (x, invalid) ↦
        let invalid' = invalid ∙ ap some (create-error req invalid) in
        refused
          (λ v.
            let valid = (validate_create_request_iff req).1 v in
            let both = sym valid ∙ invalid in cc)
          (rw (e, create) (rw (invalid', create_bound, bind_json) refl))
  ]

  -- The same of an update, whose id is the one in the path.
  pub update-Gated :
      (r : Request) (body : UpdateTaskRequest) (id : ℤ) (s : Session svc)
      → parse_id r.id ≡ some id
      → r.bind_update ≡ bound body
      → let req = record body { id = id } in
        Gated
          (IsValidUpdate req)
          (validate_update_request req).0
          (send svc 200 (svc.update req s.store) s)
          s
          (update svc r s)
  unfolding update bind_json write_error is
  update-Gated r body id s p e =
      let req = record body { id = id } in
      elim (Option-cases (validate_update_request req).1) [
        | inl valid ↦
            passed_on ((validate_update_request_iff req).0 valid)
              (rw (p, update) (rw e (rw (valid, update_bound, bind_json) refl)))
        | inr (x, invalid) ↦
            let invalid' = invalid ∙ ap some (update-error req invalid) in
            refused
              (λ v.
                let valid = (validate_update_request_iff req).1 v in
                let both = sym valid ∙ invalid in cc)
              (rw (p, update) (rw e (rw (invalid', update_bound, bind_json) refl)))
      ]

  -- The same of a list request.
  pub list-Gated :
      (r : Request) (req : ListTasksRequest) (s : Session svc)
      → bind_query {B = ListTasksResponse} r ≡ inl req
      → Gated
          (IsValidList req)
          (validate_list_request req).0
          (send svc 200 (svc.list req s.store) s)
          s
          (list svc r s)
  unfolding list write_error is
  list-Gated r req s e = elim (Option-cases (validate_list_request req).1) [
    | inl valid ↦
        passed_on ((validate_list_request_iff req).0 valid)
          (rw (e, list) (rw (valid, list_bound) refl))
    | inr (x, invalid) ↦
        let invalid' = invalid ∙ ap some (list-error req invalid) in
        refused
          (λ v.
            let valid = (validate_list_request_iff req).1 v in let both = sym valid ∙ invalid in cc)
          (rw (e, list) (rw (invalid', list_bound) refl))
  ]
