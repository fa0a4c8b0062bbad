-- ===== src/Cache/Coherence/Tables.antt =====
-- How a write changes what is found in the table, and so which cached tasks are still live.
use graph_code_challenge.Cache.Coherence.{sym, TasksAgree}
use graph_code_challenge.Cache.Keys.{task_key}
use graph_code_challenge.Redis.Effects.{IsFree}
use graph_code_challenge.Redis.Laws.{◌⊑◌}
use graph_code_challenge.Repository.Tasks.{
  find-insert, find-replace, find-remove, insert, replace, delete_spec, update_spec, find,
}
use graph_code_challenge.Entity.{Task}
use graph_code_challenge.Param.{UpdateTaskRequest}
use graph_code_challenge.Errors.{Error, err}
use graph_code_challenge.Prelude.{
  ◌∙◌, ap, eqb_ℤ, eqb_ℤ_iff, Bool-cases, ◌∷◌, arith, ◌≡◌, Option-cases, length, ◌≢◌, List, ℤ, refl,
  inr, inl, some, none, [],
}
use graph_code_challenge.Redis.{Dataset}

-- Two tables differ at one id at most.
abbrev pub Elsewhere : ℤ → List Task → List Task → Type 0
Elsewhere id ts ts' = (id' : ℤ) → id' ≢ id → find id' ts' ≡ find id' ts

pub update_spec-Elsewhere :
    (req : UpdateTaskRequest) (ts : List Task) → Elsewhere req.id ts (update_spec req ts).1
update_spec-Elsewhere req ts id' other = elim (Option-cases (find req.id ts)) [
  | inl missing ↦ rw (missing, update_spec) refl
  | inr (t, there) ↦
      rw (there, update_spec) (ground (arith, find-replace req ts id', eqb_ℤ_iff req.id id'))
]

pub delete_spec-Elsewhere : (id : ℤ) (ts : List Task) → Elsewhere id ts (delete_spec id ts).1
delete_spec-Elsewhere id ts id' other = elim (Option-cases (find id ts)) [
  | inl missing ↦ rw (missing, delete_spec) refl
  | inr (t, there) ↦
      rw (there, delete_spec) (ground (arith, find-remove ts id id', eqb_ℤ_iff id id'))
]

length-replace : (req : UpdateTaskRequest) (ts : List Task) → length (replace req ts) ≡ length ts
length-replace req [] = refl
length-replace req (t ∷ ts) = omega (arith, length-replace req ts)

pub length-update_spec :
    (req : UpdateTaskRequest) (ts : List Task) → length (update_spec req ts).1 ≡ length ts
length-update_spec req ts = elim (Option-cases (find req.id ts)) [
  | inl missing ↦ rw (missing, update_spec) refl
  | inr (t, there) ↦ rw (there, update_spec) (length-replace req ts)
]

-- A write that the table refuses leaves it.
pub update_spec-err :
    (req : UpdateTaskRequest) (ts : List Task) {x : Error}
    → (update_spec req ts).0 ≡ err x
    → (update_spec req ts).1 ≡ ts
update_spec-err req ts e = elim (Option-cases (find req.id ts)) [
  | inl missing ↦ rw (missing, update_spec) refl
  | inr (t, there) ↦ absurd (ground (arith, e, there))
]

pub delete_spec-err :
    (id : ℤ) (ts : List Task) {x : Error}
    → (delete_spec id ts).0 ≡ err x
    → (delete_spec id ts).1 ≡ ts
delete_spec-err id ts e = elim (Option-cases (find id ts)) [
  | inl missing ↦ rw (missing, delete_spec) refl
  | inr (t, there) ↦ absurd (ground (arith, e, there))
]

-- With the task's own key gone, the cached tasks are live ones of the new table.
pub TasksAgree-evicted :
    (ts ts' : List Task) {ds ds' : Dataset} (id : ℤ)
    → Elsewhere id ts ts'
    → ds' ⊑ ds
    → IsFree (task_key id) ds'
    → TasksAgree ts ds
    → TasksAgree ts' ds'
TasksAgree-evicted ts ts' {ds' = ds'} id elsewhere lost free agrees id' v e =
    elim (Bool-cases (eqb_ℤ id' id)) [
      | inl same ↦
          absurd (free v (ap (λ i. ds' (task_key i)) (sym ((eqb_ℤ_iff id' id).0 same)) ∙ e))
      | inr other ↦
          let (t, there, stored) = agrees id' v (lost (task_key id') v e) in
          (t, elsewhere id' (λ same. ground (arith, other, eqb_ℤ_iff id' id)) ∙ there, stored)
    ]

-- A new task with a new id leaves the tasks that are found.
pub find-insert-new :
    (task : Task) (ts : List Task) (id : ℤ) {t : Task}
    → find task.id ts ≡ none
    → find id ts ≡ some t
    → find id (insert task ts) ≡ some t
find-insert-new task ts id {t} new there = elim (Bool-cases (eqb_ℤ task.id id)) [
  | inl same ↦
      absurd
        (let both = sym new ∙ ap (λ i. find i ts) ((eqb_ℤ_iff task.id id).0 same) ∙ there in cc)
  | inr other ↦ find-insert task ts id ∙ rw other there
]
