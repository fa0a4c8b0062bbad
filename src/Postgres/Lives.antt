-- ===== src/Postgres/Lives.antt =====
-- The live tasks of a table's rows, and what the statements do to them: each answers, or leaves, what
-- the abstract table's operation does.
use graph_code_challenge.Postgres.Laws.{filters}
use graph_code_challenge.Postgres.Built.{
  cursor_given, assignee_given, status_given, list_sent_args, list_args,
}
use graph_code_challenge.Repository.Tasks.{matches, remove, patch, replace, find}
use graph_code_challenge.Postgres.Execution.{change, all_hold}
use graph_code_challenge.Entity.{Task}
use graph_code_challenge.Param.{UpdateTaskRequest, ListTasksRequest}
use graph_code_challenge.Prelude.{
  ◌∙◌, ◌==◌, ◌||◌, ◌&&◌, not, arith, if◌then◌else◌, map, leb_ℤ, ◌≡◌, eqb_ℤ, ◌∷◌, filterb, ltb_ℤ, ℤ,
  refl, pos, false, true, some, none, [], List, Bool,
}
use graph_code_challenge.Postgres.{Option, Datum, bigint}
use graph_code_challenge.Postgres.Statements.{is_live, id_is, Row}

abbrev pub live_tasks : List Row → List Task
live_tasks [] = []
live_tasks (r ∷ rs) = if r.deleted then live_tasks rs else r.task ∷ live_tasks rs

-- `q` selects the live rows whose task passes `p`.
abbrev pub Selects : (Row → Bool) → (Task → Bool) → Type 0
Selects q p = (r : Row) → q r ≡ (not r.deleted && p r.task)

pub select-live_tasks :
    (q : Row → Bool) (p : Task → Bool) (rs : List Row)
    → Selects q p
    → map (λ (r : Row). r.task) (filterb q rs) ≡ filterb p (live_tasks rs)
select-live_tasks q p [] h = refl
select-live_tasks q p (r ∷ rs) h = ground (arith, h r, select-live_tasks q p rs h)

pub live_tasks-deleted :
    (q : Row → Bool) (id : ℤ) (rs : List Row)
    → Selects q (λ t. eqb_ℤ t.id id)
    → live_tasks (change q (λ r. record r { deleted = true }) rs) ≡ remove id (live_tasks rs)
live_tasks-deleted q id [] h = refl
live_tasks-deleted q id (r ∷ rs) h = ground (arith, h r, live_tasks-deleted q id rs h)

pub live_tasks-patched :
    (q : Row → Bool) (f : Task → Task) (req : UpdateTaskRequest) (rs : List Row)
    → Selects q (λ t. eqb_ℤ t.id req.id)
    → ((t : Task) → f t ≡ patch req t)
    → live_tasks (change q (λ r. record r { task = f r.task }) rs) ≡ replace req (live_tasks rs)
live_tasks-patched q f req [] h e = refl
live_tasks-patched q f req (r ∷ rs) h e =
    ground (arith, h r, e r.task, live_tasks-patched q f req rs h e)

-- The first of the selected tasks is the one that is found.
abbrev pub head : List Task → Option Task
head [] = none
head (t ∷ ts) = some t

pub head-filterb : (id : ℤ) (ts : List Task) → head (filterb (λ t. eqb_ℤ t.id id) ts) ≡ find id ts
head-filterb id [] = refl
head-filterb id (t ∷ ts) = ground (arith, head-filterb id ts)

pub remove_missing : (id : ℤ) (ts : List Task) → find id ts ≡ none → remove id ts ≡ ts
remove_missing id [] h = refl
remove_missing id (t ∷ ts) h = ground (arith, remove_missing id ts)

pub replace_missing :
    (req : UpdateTaskRequest) (ts : List Task) → find req.id ts ≡ none → replace req ts ≡ ts
replace_missing req [] h = refl
replace_missing req (t ∷ ts) h = ground (arith, replace_missing req ts)

pub by_id-Selects :
    (id : ℤ) (rest : List Datum)
    → Selects (all_hold (bigint id ∷ rest) (id_is 1 ∷ is_live ∷ [])) (λ t. eqb_ℤ t.id id)
by_id-Selects id rest r = ground arith

filters_hold :
    (s a c : Bool) (req : ListTasksRequest) (r : Row)
    → all_hold (list_args s a c req) (filters s a c) r ≡ (
        not r.deleted
        && ((not s || r.task.status == req.status)
            && ((not a || r.task.assignee == req.assignee)
                && ((not c || ltb_ℤ r.task.id req.cursor) && true))))
filters_hold true true true req r = refl
filters_hold true true false req r = refl
filters_hold true false true req r = refl
filters_hold true false false req r = refl
filters_hold false true true req r = refl
filters_hold false true false req r = refl
filters_hold false false true req r = refl
filters_hold false false false req r = refl

not_positive : (a : ℤ) → not (ltb_ℤ (pos 0) a) ≡ leb_ℤ a (pos 0)
unfolding ltb_ℤ leb_ℤ
not_positive a = ground arith

-- The filters that a list sends select the tasks that match.
pub filters-Selects :
    (req : ListTasksRequest)
    → Selects
        (all_hold
          (list_sent_args req)
          (filters (status_given req) (assignee_given req) (cursor_given req)))
        (matches req)
filters-Selects req r =
    filters_hold (status_given req) (assignee_given req) (cursor_given req) req r
    ∙ ground (arith, not_positive req.cursor)
