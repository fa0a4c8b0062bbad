-- ===== src/Postgres/Patches.antt =====
-- The table's update and delete, and the rows that an update answers with.
use graph_code_challenge.Repository.Descending.{
  delete_spec-there, update_spec-there, update_spec-missing, delete_spec-missing,
}
use graph_code_challenge.Postgres.Scans.{row_task}
use graph_code_challenge.Postgres.Lives.{remove_missing, replace_missing, head}
use graph_code_challenge.Repository.Tasks.{
  find, found, remove, replace, update_spec, delete_spec, patch,
}
use graph_code_challenge.Entity.{Task}
use graph_code_challenge.Param.{UpdateTaskRequest}
use graph_code_challenge.Prelude.{
  sym, ◌∙◌, Option-cases, ◌∷◌, map, ◌≡◌, refl, inr, inl, some, none, [], List, ℤ, Option,
}
use graph_code_challenge.Postgres.Statements.{Row}

-- What an update answers with: the selected rows, patched.
pub patched_rows :
    (req : UpdateTaskRequest) (f : Task → Task) (rs : List Row)
    → ((t : Task) → f t ≡ patch req t)
    → map row_task (map (λ (r : Row). record r { task = f r.task }) rs)
      ≡ map (patch req) (map row_task rs)
patched_rows req f [] e = refl
patched_rows req f (r ∷ rs) e = cc (e r.task, patched_rows req f rs e)

abbrev pub patched_task : UpdateTaskRequest → Option Task → Option Task
patched_task req none = none
patched_task req (some t) = some (patch req t)

pub head-map :
    (req : UpdateTaskRequest) (ts : List Task)
    → head (map (patch req) ts) ≡ patched_task req (head ts)
head-map req [] = refl
head-map req (t ∷ ts) = refl

-- What the table's update is, by whether the task is there.
pub update_spec-answer :
    (req : UpdateTaskRequest) (ts : List Task)
    → (update_spec req ts).0 ≡ found (patched_task req (find req.id ts))
update_spec-answer req ts = elim (Option-cases (find req.id ts)) [
  | inl missing ↦ rw (missing, update_spec) refl
  | inr (t, there) ↦ rw (there, update_spec) refl
]

pub update_spec-table :
    (req : UpdateTaskRequest) (ts : List Task) → (update_spec req ts).1 ≡ replace req ts
update_spec-table req ts = elim (Option-cases (find req.id ts)) [
  | inl missing ↦ update_spec-missing req ts missing ∙ sym (replace_missing req ts missing)
  | inr (t, there) ↦ update_spec-there req ts there
]

pub delete_spec-table : (id : ℤ) (ts : List Task) → (delete_spec id ts).1 ≡ remove id ts
delete_spec-table id ts = elim (Option-cases (find id ts)) [
  | inl missing ↦ delete_spec-missing id ts missing ∙ sym (remove_missing id ts missing)
  | inr (t, there) ↦ delete_spec-there id ts there
]
