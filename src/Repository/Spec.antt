-- ===== src/Repository/Spec.antt =====
-- What a repository promises its callers, over the abstract table of the live tasks: each operation
-- either answers as the table does and leaves what it says, or fails with an error that is neither
-- "not found" nor a validation error and leaves the table as it was.
use graph_code_challenge.Prelude.{◌∙◌, sym, ◌^◌, ◌<◌, length, ◌≤ℤ◌, ℤ, ◌≡◌, List, pos, false, none}
use graph_code_challenge.Entity.{Task}
use graph_code_challenge.Errors.{err, ok, Error, Result, is, not_found, validation}
use graph_code_challenge.Param.{ListTasksRequest, UpdateTaskRequest}
use graph_code_challenge.Repository.{Repository}
use graph_code_challenge.Repository.Tasks.{
  find, insert, page, get_spec, update_spec, delete_spec, IsDescending,
}

-- An internal failure: a caller can tell it from a missing task.
abbrev pub IsInternal : Error → Type 0
IsInternal e = (is e not_found ≡ false) × (is e validation ≡ false)

pub data Answers {ℓ} {A : Type ℓ} (expected r : Result A) : Type ℓ where
  answered : r ≡ expected → Answers expected r
  failed : (e : Error) → r ≡ err e → IsInternal e → Answers expected r

-- A read leaves the table.
pub record Reads {ℓ} {A : Type ℓ} (expected : Result A) (before : List Task) (r : Result A)
    (after : List Task) : Type ℓ where
  pub answer : Answers expected r
  pub kept : after ≡ before

-- A write does what the table's operation does, or fails and leaves the table.
pub data Writes {A : Type 0} (expected : Result A × List Task) (before : List Task) (r : Result A)
    (after : List Task) : Type 0 where
  written : r ≡ expected.0 → after ≡ expected.1 → Writes expected before r after
  failed : (e : Error) → r ≡ err e → IsInternal e → after ≡ before → Writes expected before r after

-- A write that succeeds is the table's.
pub Writes-ok :
    {A : Type 0} {expected : Result A × List Task} {before after : List Task} {r : Result A} {a : A}
    → Writes expected before r after
    → r ≡ ok a
    → (expected.0 ≡ ok a) × (after ≡ expected.1)
Writes-ok (written e a) h = (sym e ∙ h, a)
Writes-ok (failed x e _ _) h = cc (sym e ∙ h)

-- A creation chooses an id that no live task has.
pub data Creates (task : Task) (before : List Task) (r : Result Task) (after : List Task)
    : Type 0 where
  created :
      (id : ℤ)
      → pos 1 ≤ℤ id
      → find id before ≡ none
      → r ≡ ok (record task { id = id })
      → after ≡ insert (record task { id = id }) before
      → Creates task before r after
  failed : (e : Error) → r ≡ err e → IsInternal e → after ≡ before → Creates task before r after

pub record Implements (r : Repository) : Type 1 where
  pub live : r.State → List Task
  pub IsSound : r.State → Type 0
  pub descending : (s : r.State) → IsSound s → IsDescending (live s)
  -- `Count` returns an int64.
  pub countable : (s : r.State) → IsSound s → length (live s) < 2 ^ 63
  pub create_law :
      (task : Task) (s : r.State)
      → IsSound s
      → Creates task (live s) (r.create task s).0 (live (r.create task s).1)
        × IsSound (r.create task s).1
  pub get_by_id_law :
      (id : ℤ) (s : r.State)
      → IsSound s
      → Reads (get_spec id (live s)) (live s) (r.get_by_id id s).0 (live (r.get_by_id id s).1)
        × IsSound (r.get_by_id id s).1
  pub list_law :
      (req : ListTasksRequest) (s : r.State)
      → pos 0 ≤ℤ req.limit
      → IsSound s
      → Reads (ok (page req (live s))) (live s) (r.list req s).0 (live (r.list req s).1)
        × IsSound (r.list req s).1
  pub update_law :
      (req : UpdateTaskRequest) (s : r.State)
      → IsSound s
      → Writes (update_spec req (live s)) (live s) (r.update req s).0 (live (r.update req s).1)
        × IsSound (r.update req s).1
  pub delete_law :
      (id : ℤ) (s : r.State)
      → IsSound s
      → Writes (delete_spec id (live s)) (live s) (r.delete id s).0 (live (r.delete id s).1)
        × IsSound (r.delete id s).1
  pub count_law :
      (s : r.State)
      → IsSound s
      → Reads (ok (pos (length (live s)))) (live s) (r.count s).0 (live (r.count s).1)
        × IsSound (r.count s).1
