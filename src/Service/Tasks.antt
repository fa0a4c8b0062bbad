-- ===== src/Service/Tasks.antt =====
-- The service's operations on one task, over a repository that keeps its promises.
use graph_code_challenge.Repository.{Repository}
use graph_code_challenge.Param.{
  UpdateTaskRequest, CreateTaskRequest, UpdateTaskResponse, CreateTaskResponse, new_task_info,
  GetTaskResponse,
}
use graph_code_challenge.Repository.Tasks.{
  find-replace, find-remove, update_spec, delete_spec, patch, find-insert, find, get_spec,
}
use graph_code_challenge.Service.Errors.{Answers-map, wrapping-map, wrapping-map-eq-ok}
use graph_code_challenge.Entity.{Task, err_task_not_found}
use graph_code_challenge.Prelude.{
  ◌==◌, if◌then◌else◌, refl, Option-cases, ap, inr, inl, none, ℤ, eqb_ℤ_iff, arith, ◌∷◌, [],
  eqb_ℤ_refl, ◌∙◌, sym, List, some, ◌≡◌,
}
use graph_code_challenge.Repository.Spec.{Writes-ok, failed, created, Creates, Answers, Implements}
use graph_code_challenge.Errors.{map_ok, wrap_error, Result, wrapped, err, ok}
use graph_code_challenge.Service.{create, get_by_id, update, delete, new_task}

abbrev info_response : Task → GetTaskResponse
info_response t = record { task = new_task_info t }

-- A read answers as the table does, its error wrapped.
get-Answers :
    (repo : Repository) (impl : Implements repo) (id : ℤ) (s : repo.State)
    → impl.IsSound s
    → Answers
        (wrap_error "taskservice: get task: " (map_ok info_response (get_spec id (impl.live s))))
        (get_by_id repo (record { id = id }) s).0
unfolding get_by_id
get-Answers repo impl id s sound =
    let (reads, _) = impl.get_by_id_law id s sound in
    rw (wrapping-map "taskservice: get task: " info_response (repo.get_by_id id) s)
      (Answers-map "taskservice: get task: " info_response reads.answer)

module _ (repo : Repository) (impl : Implements repo) where
  abbrev ReadsTask : ℤ → repo.State → Result GetTaskResponse → Type 0
  ReadsTask id s expected = Answers expected (get_by_id repo (record { id = id }) s).0

  pub get-some :
      (id : ℤ) {s : repo.State} {t : Task}
      → impl.IsSound s
      → find id (impl.live s) ≡ some t
      → ReadsTask id s (ok (info_response t))
  get-some id {s} sound there =
      let answers = get-Answers repo impl id s sound in rw there at answers

  pub get-none :
      (id : ℤ) {s : repo.State}
      → impl.IsSound s
      → find id (impl.live s) ≡ none
      → ReadsTask id s (err (wrapped "taskservice: get task: " err_task_not_found))
  get-none id {s} sound gone = let answers = get-Answers repo impl id s sound in rw gone at answers

  -- The two states of a call and its response are named apart from the call that gave them.
  get-after_create :
      (task : Task) {t : Task} {s s' : repo.State} {resp : CreateTaskResponse}
      → record { task = new_task_info t } ≡ resp
      → s ≡ s'
      → impl.IsSound s
      → t ≡ record task { id = t.id }
      → find t.id (impl.live s) ≡ some t
      → (resp.task ≡ new_task_info (record task { id = resp.task.id }))
        × ReadsTask resp.task.id s' (ok (record { task = resp.task }))
  unfolding new_task_info
  get-after_create task {t} same next sound fields there =
      rw (← same, ← next) (ap new_task_info fields, get-some t.id sound there)

  get-after_update :
      (id : ℤ) {t : Task} {s s' : repo.State} {resp : UpdateTaskResponse}
      → record { task = new_task_info t } ≡ resp
      → s ≡ s'
      → impl.IsSound s
      → find id (impl.live s) ≡ some t
      → (resp.task ≡ new_task_info t) × ReadsTask id s' (ok (record { task = resp.task }))
  get-after_update id same next sound there = rw (← same, ← next) (refl, get-some id sound there)

Creates-ok :
    {task t : Task} {before after : List Task} {r : Result Task}
    → Creates task before r after
    → r ≡ ok t
    → (t ≡ record task { id = t.id }) × (find t.id after ≡ some t)
Creates-ok {task} {t} {before} (created id _ _ e a) h =
    let same : record task { id = id } ≡ t = cc in
    (rw (← same), rw (a, ← same) (rw (find-insert, eqb_ℤ_refl)))
Creates-ok (failed x e _ _) h = cc (sym e ∙ h)

-- The id of the table's task is the one that was asked for.
find-id : (id : ℤ) (ts : List Task) {t : Task} → find id ts ≡ some t → t.id ≡ id
find-id id [] e = cc
find-id id (x ∷ ts) {t = t} e = ground (arith, eqb_ℤ_iff x.id id, find-id id ts {t = t})

update_spec-ok :
    (req : UpdateTaskRequest) (ts : List Task) {t : Task}
    → (update_spec req ts).0 ≡ ok t
    → (old : Task) × (find req.id ts ≡ some old) × (t ≡ patch req old)
update_spec-ok req ts {t} e = elim (Option-cases (find req.id ts)) [
  | inl missing ↦ ground arith
  | inr (old, was) ↦ (old, was, ground arith)
]

update_spec-found :
    (req : UpdateTaskRequest) (ts : List Task) {old : Task}
    → find req.id ts ≡ some old
    → find req.id (update_spec req ts).1 ≡ some (patch req old)
update_spec-found req ts {old} was = ground (arith, find-replace req ts req.id, eqb_ℤ_refl req.id)

delete_spec-found :
    (id : ℤ) (ts : List Task) → (delete_spec id ts).0 ≡ ok tt → find id (delete_spec id ts).1 ≡ none
delete_spec-found id ts e = ground (arith, find-remove ts id id, eqb_ℤ_refl id)

module _ (repo : Repository) (impl : Implements repo) where
  -- A created task that is asked for by its id comes back as it was created, with the status
  -- "pending" if none was given, or the read fails internally.
  pub get-create :
      (req : CreateTaskRequest) (s s' : repo.State) (resp : CreateTaskResponse)
      → impl.IsSound s
      → create repo req s ≡ (ok resp, s')
      → (resp.task ≡ record {
        id = resp.task.id;
        title = req.title;
        description = req.description;
        status = if req.status == "" then "pending" else req.status;
        assignee = req.assignee;
      })
        × Answers
            (ok (record { task = resp.task }))
            (get_by_id repo (record { id = resp.task.id }) s').0
  unfolding create new_task new_task_info
  get-create req s s' resp sound e =
      let (t, made, same, next) =
        wrapping-map-eq-ok "taskservice: create task: "
          (λ (t : Task). let r : CreateTaskResponse = record { task = new_task_info t } in r)
          (repo.create (new_task req)) s e in
      let (creates, sound') = impl.create_law (new_task req) s sound in
      let (fields, there) = Creates-ok creates made in
      get-after_create repo impl (new_task req) same next sound' fields there

  -- An update that succeeds found a live task, and answers with it as patched; a read then finds
  -- just that, or fails internally.
  pub get-update :
      (req : UpdateTaskRequest) (s s' : repo.State) (resp : UpdateTaskResponse)
      → impl.IsSound s
      → update repo req s ≡ (ok resp, s')
      → (old : Task) × (find req.id (impl.live s) ≡ some old)
        × (resp.task ≡ new_task_info (patch req old))
        × Answers (ok (record { task = resp.task })) (get_by_id repo (record { id = req.id }) s').0
  unfolding update
  get-update req s s' resp sound e =
      let (t, made, same, next) =
        wrapping-map-eq-ok "taskservice: update task: "
          (λ (t : Task). let r : UpdateTaskResponse = record { task = new_task_info t } in r)
          (repo.update req) s e in
      let (writes, sound') = impl.update_law req s sound in
      let (expected, after) = Writes-ok writes made in
      let (old, was, new) = update_spec-ok req (impl.live s) expected in
      let there =
        ap (find req.id) after ∙ update_spec-found req (impl.live s) was ∙ ap some (sym new) in
      let (info, reads) = get-after_update repo impl req.id same next sound' there in
      (old, was, info ∙ ap new_task_info new, reads)

  -- A task that was deleted is gone: a read answers "not found" or fails internally.
  pub get-delete :
      (id : ℤ) (s s' : repo.State)
      → impl.IsSound s
      → delete repo (record { id = id }) s ≡ (ok tt, s')
      → Answers
          (err (wrapped "taskservice: get task: " err_task_not_found))
          (get_by_id repo (record { id = id }) s').0
  unfolding delete
  get-delete id s s' sound e =
      let (_, made, _, next) =
        wrapping-map-eq-ok "taskservice: delete task: " (λ (_ : Unit {0}). tt) (repo.delete id) s
          e in
      let (writes, sound') = impl.delete_law id s sound in
      let (expected, after) = Writes-ok writes made in
      let gone = ap (find id) after ∙ delete_spec-found id (impl.live s) expected in
      rw (← next) (get-none repo impl id sound' gone)
