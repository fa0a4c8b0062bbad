-- ===== src/Service/Pages.antt =====
-- `List`: the limit that is used, and the page that is answered.
use graph_code_challenge.Prelude.{
  refl, ap, filterb, add_int64, take_all, length-take, take-take-suc, Bool-cases, inr, inl, length,
  ltb, if◌then◌else◌, map, take, leb_ℤ, arith, List, ltb_ℤ, negsuc, suc, zero, ◌≤◌, ◌≡◌, ℕ, ℤ, pos,
}
use graph_code_challenge.Param.{
  ListTasksRequest, ListTasksResponse, with_clamped_limit, new_task_info,
}
use graph_code_challenge.Entity.{Task}
use graph_code_challenge.Errors.{map_ok, wrap_error, wrapped, ok, Result}
use graph_code_challenge.Repository.{Repository}
use graph_code_challenge.Repository.Spec.{Implements, Answers, answered, failed, Reads}
use graph_code_challenge.Repository.Tasks.{matches, page}
use graph_code_challenge.Service.{respond, last_id, list}
use graph_code_challenge.Service.Errors.{wrapping-map, wrapped-IsInternal}

-- The number of tasks that a page may hold, for the limit that was asked for.
unfoldable pub page_size : ℤ → ℕ
page_size (pos zero) = 20
page_size (pos (suc n)) = if ltb 50 (suc n) then 50 else suc n
page_size (negsuc n) = 20

pub page_size_bounds : (limit : ℤ) → (1 ≤ page_size limit) × (page_size limit ≤ 50)
unfolding page_size
page_size_bounds (pos zero) = omega arith
page_size_bounds (pos (suc n)) = ground arith
page_size_bounds (negsuc n) = omega arith

-- The limit becomes the page size, and nothing else changes.
pub with_clamped_limit_lem :
    (req : ListTasksRequest)
    → with_clamped_limit req ≡ record req { limit = pos (page_size req.limit) }
unfolding with_clamped_limit page_size leb_ℤ ltb_ℤ
with_clamped_limit_lem req = ground arith

-- The page of a filtered table: its first tasks, whether there are more, and the id to go on from.
abbrev pub page_response : ℕ → List Task → ListTasksResponse
page_response n ts = record {
  tasks = map new_task_info (take n ts);
  next_cursor = if ltb n (length ts) then last_id (take n ts) else pos 0;
  has_more = ltb n (length ts);
}

-- Asking for one task more than the page holds tells whether there are more.
respond-take-suc :
    (req : ListTasksRequest) (n : ℕ) (ts : List Task)
    → 1 ≤ n
    → req.limit ≡ pos n
    → respond req (take (suc n) ts) ≡ page_response n ts
unfolding respond ltb_ℤ
respond-take-suc req n ts h e = elim (Bool-cases (ltb n (length ts))) [
  | inl more ↦ ground (arith, take-take-suc n ts, length-take (suc n) ts, length-take n ts)
  | inr last ↦ rw (take_all (suc n) ts (ground arith), take_all n ts (ground arith)) (ground arith)
]

-- The limit of the probe does not overflow.
add_int64-page_size : (n : ℕ) → n ≤ 50 → add_int64 (pos n) (pos 1) ≡ pos (suc n)
unfolding add_int64
add_int64-page_size n h = ground arith

list-probe :
    (repo : Repository) (req : ListTasksRequest) (s : repo.State)
    → let n = page_size req.limit in
      let probe = record req { limit = pos (suc n) } in
      list repo req s ≡ (
        wrap_error "taskservice: list tasks: "
            (map_ok (respond (record req { limit = pos n })) (repo.list probe s).0),
        (repo.list probe s).1,
      )
unfolding list
list-probe repo req s =
    rw
      (
        with_clamped_limit_lem req,
        add_int64-page_size (page_size req.limit) (page_size_bounds req.limit).1,
      )
      (wrapping-map "taskservice: list tasks: "
        (respond (record req { limit = pos (page_size req.limit) }))
        (repo.list (record req { limit = pos (suc (page_size req.limit)) })) s)

page-Answers :
    (req : ListTasksRequest) (n : ℕ) (ts : List Task) (r : Result (List Task))
    → 1 ≤ n
    → Answers (ok (page (record req { limit = pos (suc n) }) ts)) r
    → Answers
        (ok (page_response n (filterb (matches req) ts)))
        (wrap_error "taskservice: list tasks: " (map_ok (respond (record req { limit = pos n })) r))
page-Answers req n ts r h (failed e p i) =
    failed (wrapped "taskservice: list tasks: " e) (rw p) (wrapped-IsInternal _ e i)
page-Answers req n ts r h (answered p) = answered (
    rw p
      (ap ok (respond-take-suc (record req { limit = pos n }) n (filterb (matches req) ts) h refl)))

-- A list request, over a repository that keeps its promises, answers with the page of the live tasks
-- that match, or fails internally; either way the tasks are as they were.
pub list_lem :
    (repo : Repository) (impl : Implements repo) (req : ListTasksRequest) (s : repo.State)
    → impl.IsSound s
    → Reads
        (ok (page_response (page_size req.limit) (filterb (matches req) (impl.live s))))
        (impl.live s)
        (list repo req s).0
        (impl.live (list repo req s).1)
      × impl.IsSound (list repo req s).1
list_lem repo impl req s sound =
    let n = page_size req.limit in
    let (reads, sound') =
      impl.list_law (record req { limit = pos (suc n) }) s (omega arith) sound in
    rw list-probe (
      record {
        answer = page-Answers req n (impl.live s) _ (page_size_bounds req.limit).0 reads.answer;
        kept = reads.kept;
      },
      sound',
    )
