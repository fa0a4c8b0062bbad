-- ===== src/Postgres/Writes.antt =====
-- The update and the deletion of a task by the adapter, from the outcome of their statements.
use graph_code_challenge.Postgres.Settles.{settled, unanswered, Settles}
use graph_code_challenge.Postgres.Sequence.{KeepsIds-Leaves, KeepsIds}
use graph_code_challenge.Postgres.Patches.{
  update_spec-table, update_spec-answer, patched_task, head-map, patched_rows, delete_spec-table,
}
use graph_code_challenge.Postgres.Built.{
  assign_lem, given_args, is_given, update_args, update_sends,
}
use graph_code_challenge.Postgres.Lives.{
  live_tasks-patched, head-filterb, live_tasks-deleted, select-live_tasks, by_id-Selects,
  live_tasks, head,
}
use graph_code_challenge.Param.{UpdateTaskRequest}
use graph_code_challenge.Postgres.Scans.{length-map, row_task, some_pair}
use graph_code_challenge.Repository.Descending.{
  AllBelow-replace, IsDescending-replace, AllBelow-remove, IsDescending-remove,
}
use graph_code_challenge.Postgres.Adapter.{scan_task, or_not_found, deleted_one}
use graph_code_challenge.Postgres.Laws.{
  assignments, delete_statement, affected_rows, refused, lost, IsLost, carried_out, first_row,
  Outcome,
}
use graph_code_challenge.Postgres.Reads.{
  or_not_found-driver, or_not_found-first, IsInternal-wrapped, live_of,
}
use graph_code_challenge.Postgres.Execution.{change, assign, all_hold, Output, execute}
use graph_code_challenge.Repository.Tasks.{
  find, replace, update_spec, remove, delete_spec, AllBelow, IsDescending,
}
use graph_code_challenge.Entity.{Task}
use graph_code_challenge.Errors.{ok, Result, wrapped}
use graph_code_challenge.Prelude.{
  some, ◌++◌, eqb_ℤ, filterb, length, true, map, refl, sym, subst, ◌∙◌, ap, arith, ◌≡◌, ◌∷◌, pos,
  [], List, ℤ, ℕ,
}
use graph_code_challenge.Repository.Spec.{written, Writes, failed}
use graph_code_challenge.Postgres.{bigint, Datum}
use graph_code_challenge.Postgres.Statements.{is_live, id_is, Row, Table}

KeepsIds-rows :
    (t : Table) (rs : List Row) (ts : List Task)
    → live_tasks rs ≡ ts
    → IsDescending ts
    → AllBelow (pos t.next) ts
    → KeepsIds t
    → KeepsIds (record t { rows = rs })
KeepsIds-rows t rs ts e order below keeps = record {
  in_order = subst IsDescending (sym e) order;
  below_next = subst (AllBelow (pos t.next)) (sym e) below;
  first_id = keeps.first_id;
  last_id_bound = keeps.last_id_bound;
}

update-carried :
    (req : UpdateTaskRequest) (before after : Table) (out : Output)
    → KeepsIds before
    → execute (update_sends req) (update_args req) before ≡ some (out, after)
    → (or_not_found "postgrestask: update: " (scan_task (first_row out))
        ≡ (update_spec req (live_of before)).0)
      × (live_of after ≡ (update_spec req (live_of before)).1)
      × KeepsIds after
unfolding execute
update-carried req before after out keeps e =
    let q = all_hold (update_args req) (id_is 1 ∷ is_live ∷ []) in
    let f = assign (update_args req) (
      assignments (is_given req.title) (is_given req.description) (is_given req.status)
        (is_given req.assignee)) in
    let picked = filterb q before.rows in
    let hits = by_id-Selects req.id (
      given_args req.title
      ++ given_args req.description
      ++ given_args req.status
      ++ given_args req.assignee) in
    let (answers, same) = some_pair e in
    let first =
      ap head (patched_rows req f picked (assign_lem req))
      ∙ head-map req (map row_task picked)
      ∙ ap (patched_task req) (
          ap head (select-live_tasks q (λ t. eqb_ℤ t.id req.id) before.rows hits)
          ∙ head-filterb req.id (live_of before)) in
    let table = live_tasks-patched q f req before.rows hits (assign_lem req) in
    (
      (ap (λ x. or_not_found "postgrestask: update: " (scan_task (first_row x))) (sym answers)
          ∙ or_not_found-first "postgrestask: update: "
              (map (λ (r : Row). record r { task = f r.task }) picked)
              (length (map (λ (r : Row). record r { task = f r.task }) picked))
              (patched_task req (find req.id (live_of before))) first
          ∙ sym (update_spec-answer req (live_of before))),
      ap live_of (sym same) ∙ table ∙ sym (update_spec-table req (live_of before)),
      subst KeepsIds same (
          KeepsIds-rows before (change q (λ r. record r { task = f r.task }) before.rows)
            (replace req (live_of before)) table
            (IsDescending-replace req (live_of before) keeps.in_order)
            (AllBelow-replace req (pos before.next) (live_of before) keeps.below_next) keeps),
    )

pub update-Writes :
    (req : UpdateTaskRequest) (before after : Table) (row : Result (List Datum))
    → KeepsIds before
    → (o : Outcome first_row (execute (update_sends req) (update_args req) before) before row after)
    → ¬ IsLost o
    → Writes
        (update_spec req (live_of before))
        (live_of before)
        (or_not_found "postgrestask: update: " (scan_task row))
        (live_of after)
      × KeepsIds after
update-Writes req before after row keeps (carried_out out e h) arrived =
    let (answer, table, keeps') = update-carried req before after out keeps e in
    (
      written (ap (λ x. or_not_found "postgrestask: update: " (scan_task x)) h ∙ answer) table,
      keeps',
    )
update-Writes req before after row keeps (refused x e d leaves) arrived = (
  failed (wrapped "postgrestask: update: " x)
      (rw e (or_not_found-driver "postgrestask: update: " x d))
      (IsInternal-wrapped "postgrestask: update: " x d) (ap live_tasks leaves.rows_kept),
  KeepsIds-Leaves before after keeps leaves,
)
update-Writes req before after row keeps (lost out x e h d) arrived = absurd (arrived tt)

pub update-Settles :
    (req : UpdateTaskRequest) (before after : Table) (row : Result (List Datum))
    → KeepsIds before
    → Outcome first_row (execute (update_sends req) (update_args req) before) before row after
    → Settles
        (update_spec req (live_of before))
        (live_of before)
        (or_not_found "postgrestask: update: " (scan_task row))
        (live_of after)
      × KeepsIds after
update-Settles req before after row keeps (lost out x e h d) =
    let (_, table, keeps') = update-carried req before after out keeps e in
    (
      unanswered (wrapped "postgrestask: update: " x)
          (rw h (or_not_found-driver "postgrestask: update: " x d))
          (IsInternal-wrapped "postgrestask: update: " x d) table,
      keeps',
    )
update-Settles req before after row keeps (carried_out out e h) =
    let (writes, keeps') =
      update-Writes req before after row keeps (carried_out out e h) (λ x. x) in
    (settled writes, keeps')
update-Settles req before after row keeps (refused x e d leaves) =
    let (writes, keeps') =
      update-Writes req before after row keeps (refused x e d leaves) (λ x. x) in
    (settled writes, keeps')

-- `RowsAffected` is zero just if the task is not there.
deleted_one_lem :
    (id : ℤ) (ts : List Task)
    → deleted_one (ok (length (filterb (λ (t : Task). eqb_ℤ t.id id) ts))) ≡ (delete_spec id ts).0
deleted_one_lem id [] = refl
deleted_one_lem id (t ∷ ts) = ground (arith, deleted_one_lem id ts)

delete-carried :
    (id : ℤ) (before after : Table) (out : Output)
    → KeepsIds before
    → execute delete_statement (bigint id ∷ []) before ≡ some (out, after)
    → (deleted_one (affected_rows out) ≡ (delete_spec id (live_of before)).0)
      × (live_of after ≡ (delete_spec id (live_of before)).1)
      × KeepsIds after
unfolding execute
delete-carried id before after out keeps e =
    let q = all_hold (bigint id ∷ []) (id_is 1 ∷ is_live ∷ []) in
    let hits = by_id-Selects id [] in
    let (answers, same) = some_pair e in
    let number =
      sym (length-map row_task (filterb q before.rows))
      ∙ ap length (select-live_tasks q (λ t. eqb_ℤ t.id id) before.rows hits) in
    let table = live_tasks-deleted q id before.rows hits in
    (
      (ap deleted_one (ap affected_rows (sym answers) ∙ ap ok number)
          ∙ deleted_one_lem id (live_of before)),
      ap live_of (sym same) ∙ table ∙ sym (delete_spec-table id (live_of before)),
      subst KeepsIds same (
          KeepsIds-rows before (change q (λ r. record r { deleted = true }) before.rows)
            (remove id (live_of before)) table
            (IsDescending-remove id (live_of before) keeps.in_order)
            (AllBelow-remove id (pos before.next) (live_of before) keeps.below_next) keeps),
    )

pub delete-Writes :
    (id : ℤ) (before after : Table) (tag : Result ℕ)
    → KeepsIds before
    → (o : Outcome affected_rows
        (execute delete_statement (bigint id ∷ []) before)
        before
        tag
        after)
    → ¬ IsLost o
    → Writes (delete_spec id (live_of before)) (live_of before) (deleted_one tag) (live_of after)
      × KeepsIds after
delete-Writes id before after tag keeps (carried_out out e h) arrived =
    let (answer, table, keeps') = delete-carried id before after out keeps e in
    (written (ap deleted_one h ∙ answer) table, keeps')
delete-Writes id before after tag keeps (refused x e d leaves) arrived = (
  failed (wrapped "postgrestask: delete: " x) (ap deleted_one e)
      (IsInternal-wrapped "postgrestask: delete: " x d) (ap live_tasks leaves.rows_kept),
  KeepsIds-Leaves before after keeps leaves,
)
delete-Writes id before after tag keeps (lost out x e h d) arrived = absurd (arrived tt)

pub delete-Settles :
    (id : ℤ) (before after : Table) (tag : Result ℕ)
    → KeepsIds before
    → Outcome affected_rows (execute delete_statement (bigint id ∷ []) before) before tag after
    → Settles (delete_spec id (live_of before)) (live_of before) (deleted_one tag) (live_of after)
      × KeepsIds after
delete-Settles id before after tag keeps (lost out x e h d) =
    let (_, table, keeps') = delete-carried id before after out keeps e in
    (
      unanswered (wrapped "postgrestask: delete: " x) (ap deleted_one h)
          (IsInternal-wrapped "postgrestask: delete: " x d) table,
      keeps',
    )
delete-Settles id before after tag keeps (carried_out out e h) =
    let (writes, keeps') = delete-Writes id before after tag keeps (carried_out out e h) (λ x. x) in
    (settled writes, keeps')
delete-Settles id before after tag keeps (refused x e d leaves) =
    let (writes, keeps') =
      delete-Writes id before after tag keeps (refused x e d leaves) (λ x. x) in
    (settled writes, keeps')
