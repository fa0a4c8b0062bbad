-- ===== src/Service/Paging.antt =====
-- A client that follows `next_cursor` to the end of the list.
use graph_code_challenge.Service.Cursors.{filterb-next_cursor}
use graph_code_challenge.Service.Pages.{page_size_bounds, list_lem, page_response, page_size}
use graph_code_challenge.Entity.{Task}
use graph_code_challenge.Repository.Tasks.{IsDescending, matches}
use graph_code_challenge.Param.{ListTasksResponse, new_task_info, TaskInfo, ListTasksRequest}
use graph_code_challenge.Repository.Spec.{failed, answered, Answers, Implements}
use graph_code_challenge.Repository.{Repository}
use graph_code_challenge.Errors.{ok}
use graph_code_challenge.Prelude.{
  length-drop, lt→ltb, take_all, ltb→lt, take-append-drop, ap, ◌∙◌, ◌≡◌, map-append, sym, take,
  subst, ltb, Bool-cases, drop, inr, inl, pos, true, arith, ◌++◌, map, if◌then◌else◌, ◌<◌, List,
  filterb, length, ℕ, suc, zero, [],
}
use graph_code_challenge.Exec.{pure, Exec, ◌>>=◌}
use graph_code_challenge.Service.{last_id, list}

-- A page, and the rest of the list if the page says that there is more.
abbrev follow : {S : Type 0} → ListTasksResponse → Exec S (List TaskInfo) → Exec S (List TaskInfo)
follow resp rest =
    if resp.has_more then (do more ← rest; pure (resp.tasks ++ more)) else pure resp.tasks

-- The pages one after the other, from the cursor of the request; the fuel bounds their number.
unfoldable pub collect :
    (repo : Repository) → ℕ → ListTasksRequest → Exec repo.State (List TaskInfo)
collect repo zero req = pure []
collect repo (suc fuel) req = do
  resp ← list repo req
  follow resp (collect repo fuel (record req { cursor = resp.next_cursor }))

prepend-Answers :
    {S : Type 0} (first rest : List TaskInfo) (m : Exec S (List TaskInfo)) (s : S)
    → Answers (ok rest) (m s).0
    → Answers (ok (first ++ rest)) ((m >>= λ more. pure (first ++ more)) s).0
prepend-Answers first rest m s (answered e) = answered (rw e)
prepend-Answers first rest m s (failed x e i) = failed x (rw e) i

follow-Answers :
    {S : Type 0} (n : ℕ) (ts : List Task) (rest : Exec S (List TaskInfo)) (s : S)
    → (n < length ts → Answers (ok (map new_task_info (drop n ts))) (rest s).0)
    → Answers (ok (map new_task_info ts)) (follow (page_response n ts) rest s).0
follow-Answers n ts rest s h = elim (Bool-cases (ltb n (length ts))) [
  | inl more ↦ rw more (
      subst
        (λ l.
          Answers (ok l)
            (follow
              (record {
                tasks = map new_task_info (take n ts);
                next_cursor = pos 0;
                has_more = true;
              })
              rest s).0)
        (sym (map-append new_task_info (take n ts) (drop n ts))
          ∙ ap (map new_task_info) (take-append-drop n ts))
        (prepend-Answers (map new_task_info (take n ts)) (map new_task_info (drop n ts)) rest s
          (h (ltb→lt n (length ts) more))))
  | inr last ↦
      rw last (answered (ap (λ l. ok (map new_task_info l)) (take_all n ts (ground arith))))
]

module _ (repo : Repository) (impl : Implements repo) where
  abbrev Collects : ℕ → Type 0
  Collects fuel =
      (req : ListTasksRequest) (s : repo.State)
      → impl.IsSound s
      → length (filterb (matches req) (impl.live s)) < fuel
      → Answers (ok (map new_task_info (filterb (matches req) (impl.live s))))
          (collect repo fuel req s).0

  collect-next_page :
      (fuel : ℕ) (req : ListTasksRequest) (s after : repo.State)
      → Collects fuel
      → IsDescending (impl.live s)
      → impl.IsSound after
      → impl.live after ≡ impl.live s
      → length (filterb (matches req) (impl.live s)) < suc fuel
      → let ts = filterb (matches req) (impl.live s) in
        let n = page_size req.limit in
        n < length ts
        → Answers
            (ok (map new_task_info (drop n ts)))
            (collect repo fuel (record req { cursor = (page_response n ts).next_cursor }) after).0
  collect-next_page fuel req s after ih desc sound kept enough lt =
      let ts = filterb (matches req) (impl.live s) in
      let n = page_size req.limit in
      let next = record req { cursor = last_id (take n ts) } in
      let first = (page_size_bounds req.limit).0 in
      let remaining : filterb (matches next) (impl.live after) ≡ drop n ts =
        ap (filterb (matches next)) kept ∙ filterb-next_cursor req n (impl.live s) desc first lt in
      rw (lt→ltb n (length ts) lt) (
        subst (λ l. Answers (ok (map new_task_info l)) (collect repo fuel next after).0) remaining
          (ih next after sound (omega (arith, ap length remaining, length-drop n ts))))

  collect-page :
      (fuel : ℕ) (req : ListTasksRequest) (s : repo.State)
      → Collects fuel
      → impl.IsSound s
      → length (filterb (matches req) (impl.live s)) < suc fuel
      → Answers
          (ok (map new_task_info (filterb (matches req) (impl.live s))))
          (collect repo (suc fuel) req s).0
  unfolding collect
  collect-page fuel req s ih sound enough =
      let (reads, sound') = list_lem repo impl req s sound in
      let n = page_size req.limit in
      let ts = filterb (matches req) (impl.live s) in
      elim reads.answer [
        | failed x e i ↦ failed x (rw e) i
        | answered e ↦ rw e (
            follow-Answers n ts
              (collect repo fuel (record req { cursor = (page_response n ts).next_cursor }))
              (list repo req s).1
              (collect-next_page fuel req s (list repo req s).1 ih (impl.descending s sound) sound'
                reads.kept enough))
      ]

  -- Following the cursors answers with every matching live task, once and in order, or fails
  -- internally. A page has at least one task, so as many requests as there are tasks, and one, do.
  pub collect_lem :
      (fuel : ℕ) (req : ListTasksRequest) (s : repo.State)
      → impl.IsSound s
      → length (filterb (matches req) (impl.live s)) < fuel
      → Answers
          (ok (map new_task_info (filterb (matches req) (impl.live s))))
          (collect repo fuel req s).0
  collect_lem zero req s sound enough = absurd (omega arith)
  collect_lem (suc fuel) req s sound enough =
      collect-page fuel req s (collect_lem fuel) sound enough
