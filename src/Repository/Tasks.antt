-- ===== src/Repository/Tasks.antt =====
-- The abstract table of tasks: the live ones, by descending id. What each operation of a repository
-- answers, and what it leaves.
use graph_code_challenge.Prelude.{
  All, eqb_ℤ_iff, leb_ℤ_iff, [], ltb_ℤ, arith, filterb, eqb_ℤ, ◌&&◌, ◌≤ℤ◌, leb_ℤ, if◌then◌else◌,
  ◌||◌, pos, pos_part, ◌<ℤ◌, some, none, take, ◌≡◌, ◌∷◌, ◌==◌, Option, ℤ, Bool, List,
}
use graph_code_challenge.Entity.{Task, err_task_not_found}
use graph_code_challenge.Errors.{Result, ok, err}
use graph_code_challenge.Param.{ListTasksRequest, UpdateTaskRequest}

abbrev pub find : ℤ → List Task → Option Task
find id [] = none
find id (t ∷ ts) = if eqb_ℤ t.id id then some t else find id ts

-- A new task goes in front of the first one whose id is not greater.
abbrev pub insert : Task → List Task → List Task
insert t [] = t ∷ []
insert t (x ∷ ts) = if leb_ℤ x.id t.id then t ∷ x ∷ ts else x ∷ insert t ts

abbrev pub remove : ℤ → List Task → List Task
remove id [] = []
remove id (t ∷ ts) = if eqb_ℤ t.id id then remove id ts else t ∷ remove id ts

abbrev value_or {ℓ} : {A : Type ℓ} → Option A → A → A
value_or none d = d
value_or (some a) d = a

-- Only the fields that are given change.
abbrev pub patch : UpdateTaskRequest → Task → Task
patch req t = record t {
  title = value_or req.title t.title;
  description = value_or req.description t.description;
  status = value_or req.status t.status;
  assignee = value_or req.assignee t.assignee;
}

abbrev pub replace : UpdateTaskRequest → List Task → List Task
replace req [] = []
replace req (t ∷ ts) = (if eqb_ℤ t.id req.id then patch req t else t) ∷ replace req ts

-- An empty filter matches every task, and so does a cursor that is not positive.
abbrev pub matches : ListTasksRequest → Task → Bool
matches req t =
    (req.status == "" || t.status == req.status)
    && (req.assignee == "" || t.assignee == req.assignee)
    && (leb_ℤ req.cursor (pos 0) || ltb_ℤ t.id req.cursor)

abbrev pub page : ListTasksRequest → List Task → List Task
page req ts = take (pos_part req.limit) (filterb (matches req) ts)

abbrev pub found {ℓ} : {A : Type ℓ} → Option A → Result A
found none = err err_task_not_found
found (some a) = ok a

abbrev if_found {ℓ κ} : {A : Type ℓ} {B : Type κ} → Option A → B → B → B
if_found none x y = y
if_found (some a) x y = x

abbrev pub get_spec : ℤ → List Task → Result Task
get_spec id ts = found (find id ts)

abbrev pub update_spec : UpdateTaskRequest → List Task → Result Task × List Task
update_spec req ts = elim (find req.id ts) [
  | none ↦ (err err_task_not_found, ts)
  | some t ↦ (ok (patch req t), replace req ts)
]

abbrev pub delete_spec : ℤ → List Task → Result (Unit {0}) × List Task
delete_spec id ts = elim (find id ts) [
  | none ↦ (err err_task_not_found, ts)
  | some t ↦ (ok tt, remove id ts)
]

abbrev pub AllBelow : ℤ → List Task → Type 0
AllBelow id ts = All (λ t. t.id <ℤ id) ts

-- Ids fall along the list, and all are positive.
abbrev pub IsDescending : List Task → Type 0
IsDescending [] = Unit
IsDescending (t ∷ ts) = (pos 1 ≤ℤ t.id) × AllBelow t.id ts × IsDescending ts

le_refl_of_eq : (a b : ℤ) → a ≡ b → a ≤ℤ b
le_refl_of_eq a b e = rw e (omega arith)

pub find-insert :
    (t : Task) (ts : List Task) (id : ℤ)
    → find id (insert t ts) ≡ (if eqb_ℤ t.id id then some t else find id ts)
find-insert t [] id = λ i. if eqb_ℤ t.id id then some t else none
find-insert t (x ∷ ts) id = ground (
  arith,
  leb_ℤ_iff x.id t.id,
  eqb_ℤ_iff t.id id,
  eqb_ℤ_iff x.id id,
  le_refl_of_eq x.id t.id,
  find-insert t ts id,
)

pub find-remove :
    (ts : List Task) (id id' : ℤ)
    → find id' (remove id ts) ≡ (if eqb_ℤ id id' then none else find id' ts)
find-remove [] id id' = ground arith
find-remove (x ∷ ts) id id' =
    ground (arith, eqb_ℤ_iff x.id id, eqb_ℤ_iff x.id id', eqb_ℤ_iff id id', find-remove ts id id')

abbrev pub patched : UpdateTaskRequest → Option Task → Option Task
patched req none = none
patched req (some t) = some (patch req t)

pub find-replace :
    (req : UpdateTaskRequest) (ts : List Task) (id : ℤ)
    → find id (replace req ts) ≡ (if eqb_ℤ req.id id then patched req (find id ts) else find id ts)
find-replace req [] id = ground arith
find-replace req (x ∷ ts) id =
    ground
      (arith, eqb_ℤ_iff x.id req.id, eqb_ℤ_iff x.id id, eqb_ℤ_iff req.id id, find-replace req ts id)
