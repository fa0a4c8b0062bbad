-- ===== src/Handler/Traces.antt =====
-- Requests to the five routes one after the other, over the service and a repository that keeps its
-- contract.
use graph_code_challenge.Handler.Table.{IsNew}
use graph_code_challenge.Errors.{Error}
use graph_code_challenge.Entity.{Task}
use graph_code_challenge.Repository.Spec.{Implements}
use graph_code_challenge.Param.{
  DeleteTaskResponse, UpdateTaskResponse, ListTasksResponse, GetTaskResponse, CreateTaskResponse,
}
use graph_code_challenge.Repository.{Repository}
use graph_code_challenge.Prelude.{◌++◌, ◌≡◌, ℤ, refl, pos, []}
use graph_code_challenge.Handler
use graph_code_challenge.Handler.{
  ◌∷◌, msg_internal, List, Request, Session, Response, TaskService, task_service, write_message,
}
use graph_code_challenge.Handler.Table
use graph_code_challenge.Handler.Sent
use graph_code_challenge.Handler.Sessions.{
  create-Does, get-Does, list-Does, update-Does, delete-Does,
}

-- A request to one of the routes, and the response of one.
pub data Call : Type 0 where
  creating getting listing updating deleting : Request → Call

pub data Reply : Type 0 where
  to_create : Response CreateTaskResponse → Reply
  to_get : Response GetTaskResponse → Reply
  to_list : Response ListTasksResponse → Reply
  to_update : Response UpdateTaskResponse → Reply
  to_delete : Response DeleteTaskResponse → Reply

abbrev reply_with : {A S : Type 0} → (A → Reply) → A × S → Reply × S
reply_with f (a, s) = (f a, s)

abbrev pub serve : (svc : TaskService) → Call → Session svc → Reply × Session svc
serve svc (creating r) s = reply_with to_create (Handler.create svc r s)
serve svc (getting r) s = reply_with to_get (Handler.get svc r s)
serve svc (listing r) s = reply_with to_list (Handler.list svc r s)
serve svc (updating r) s = reply_with to_update (Handler.update svc r s)
serve svc (deleting r) s = reply_with to_delete (Handler.delete svc r s)

abbrev pub serve_all : (svc : TaskService) → List Call → Session svc → List Reply × Session svc
serve_all svc [] s = ([], s)
serve_all svc (c ∷ calls) s =
    let (reply, s') = serve svc c s in
    let (replies, final) = serve_all svc calls s' in (reply ∷ replies, final)

-- The reply over the abstract table, and the table that it leaves; a creation gives the id.
abbrev pub expected_reply : ℤ → Call → List Task → Reply × List Task
expected_reply id (creating r) ts = reply_with to_create (Table.create_spec id r ts)
expected_reply id (getting r) ts = reply_with to_get (Table.get_spec r ts)
expected_reply id (listing r) ts = reply_with to_list (Table.list_spec r ts)
expected_reply id (updating r) ts = reply_with to_update (Table.update_spec r ts)
expected_reply id (deleting r) ts = reply_with to_delete (Table.delete_spec r ts)

abbrev pub failure : Call → Reply
failure (creating r) = to_create (write_message 500 msg_internal)
failure (getting r) = to_get (write_message 500 msg_internal)
failure (listing r) = to_list (write_message 500 msg_internal)
failure (updating r) = to_update (write_message 500 msg_internal)
failure (deleting r) = to_delete (write_message 500 msg_internal)

abbrev pub IsChosen : Call → ℤ → List Task → List Task → Type 0
IsChosen (creating r) id before after = IsNew id before after
IsChosen (getting r) id before after = Unit
IsChosen (listing r) id before after = Unit
IsChosen (updating r) id before after = Unit
IsChosen (deleting r) id before after = Unit

-- A call is replied to as the table says and nothing is logged; or with status 500, its error is logged
-- and the table is as it was.
pub data Served (call : Call) (before : List Task) (logged : List Error) (reply : Reply)
    (after : List Task) (entries : List Error) : Type 0 where
  as_table :
      (id : ℤ)
      → IsChosen call id before after
      → reply ≡ (expected_reply id call before).0
      → after ≡ (expected_reply id call before).1
      → entries ≡ logged
      → Served call before logged reply after entries
  broken :
      (e : Error)
      → reply ≡ failure call
      → after ≡ before
      → entries ≡ logged ++ e ∷ []
      → Served call before logged reply after entries

-- The calls one after the other, each from the table that the one before it left.
pub data Follows
    : List Call → List Task → List Error → List Reply → List Task → List Error → Type 0 where
  ends : {ts : List Task} {es : List Error} → Follows [] ts es [] ts es
  then :
      {call : Call} {calls : List Call} {ts ts' us : List Task} {es es' fs : List Error}
      {reply : Reply} {replies : List Reply}
      → Served call ts es reply ts' es'
      → Follows calls ts' es' replies us fs
      → Follows (call ∷ calls) ts es (reply ∷ replies) us fs

Outcome-Served :
    {A : Type 0} (call : Call) (to : Response A → Reply) (id : ℤ)
    {expected : Response A × List Task} {before after : List Task} {logged entries : List Error}
    {r : Response A}
    → IsChosen call id before after
    → expected_reply id call before ≡ reply_with to expected
    → failure call ≡ to (write_message 500 msg_internal)
    → Sent.Outcome expected before logged r after entries
    → Served call before logged (to r) after entries
Outcome-Served call to id chosen table failed (Sent.as_table e a l) =
    as_table id chosen (rw (table, e) refl) (rw (table, a) refl) l
Outcome-Served call to id chosen table failed (Sent.broken x e a l) =
    broken x (rw (failed, e) refl) a l

module _ (repo : Repository) (impl : Implements repo) where
  serve-Served :
      (call : Call) (s : Session (task_service repo))
      → impl.IsSound s.store
      → let outcome = serve (task_service repo) call s in
        Served call
          (impl.live s.store)
          s.logged
          outcome.0
          (impl.live outcome.1.store)
          outcome.1.logged
        × impl.IsSound outcome.1.store
  serve-Served (creating r) s sound =
      let (id, new, (outcome, sound')) = create-Does repo impl r s sound in
      (Outcome-Served (creating r) to_create id new refl refl outcome, sound')
  serve-Served (getting r) s sound =
      let (outcome, sound') = get-Does repo impl r s sound in
      (Outcome-Served (getting r) to_get (pos 0) tt refl refl outcome, sound')
  serve-Served (listing r) s sound =
      let (outcome, sound') = list-Does repo impl r s sound in
      (Outcome-Served (listing r) to_list (pos 0) tt refl refl outcome, sound')
  serve-Served (updating r) s sound =
      let (outcome, sound') = update-Does repo impl r s sound in
      (Outcome-Served (updating r) to_update (pos 0) tt refl refl outcome, sound')
  serve-Served (deleting r) s sound =
      let (outcome, sound') = delete-Does repo impl r s sound in
      (Outcome-Served (deleting r) to_delete (pos 0) tt refl refl outcome, sound')

  pub serve_all-Follows :
      (calls : List Call) (s : Session (task_service repo))
      → impl.IsSound s.store
      → let outcome = serve_all (task_service repo) calls s in
        Follows calls
          (impl.live s.store)
          s.logged
          outcome.0
          (impl.live outcome.1.store)
          outcome.1.logged
  serve_all-Follows [] s sound = ends
  serve_all-Follows (call ∷ calls) s sound =
      let (served, sound') = serve-Served call s sound in
      then served (serve_all-Follows calls (serve (task_service repo) call s).1 sound')
