-- ===== src/Postgres/Reads.antt =====
-- Each read of the adapter, from the outcome of its statement.
use graph_code_challenge.Postgres.Built.{
  cursor_given, assignee_given, list_args, status_given, list_sends, list_sent_args,
}
use graph_code_challenge.Param.{ListTasksRequest}
use graph_code_challenge.Repository.Tasks.{matches, page, find, found, get_spec}
use graph_code_challenge.Postgres.Adapter.{scan_rows, scan_int, scan_all, scan_task, or_not_found}
use graph_code_challenge.Postgres.Scans.{
  map-take, scan_rows-broken, scan_rows-map, length-map, some_pair, scan_first, row_cells, row_task,
}
use graph_code_challenge.Repository.Spec.{Answers, Reads, IsInternal, answered, failed}
use graph_code_challenge.Postgres.Laws.{
  not_opened, broken, opened, count_if, streamed, filters, QueryOutcome, Streams, count_statement,
  refused, lost, carried_out, get_statement, first_row, IsDriver, Outcome,
}
use graph_code_challenge.Postgres.Lives.{
  filters-Selects, head-filterb, by_id-Selects, select-live_tasks, head, live_tasks,
}
use graph_code_challenge.Postgres.Execution.{int_argument, all_hold, execute}
use graph_code_challenge.Entity.{Task}
use graph_code_challenge.Errors.{wrap_error, ok, Result, Error, is, wrapped, err}
use graph_code_challenge.Prelude.{
  subst, pos_part, take, arith, ◌+◌, Bool, pos, false, true, length, filterb, sym, ◌∙◌, eqb_ℤ, ap,
  ◌∷◌, ◌≡◌, map, refl, some, none, [], List, Option, ℤ, String, ℕ,
}
use graph_code_challenge.Postgres.{Rows, bigint, Datum}
use graph_code_challenge.Postgres.Statements.{is_live, id_is, Row, Table}

abbrev pub live_of : Table → List Task
live_of t = live_tasks t.rows

-- A driver's error stays internal when it is wrapped.
pub IsInternal-wrapped : (p : String) (e : Error) → IsDriver e → IsInternal (wrapped p e)
unfolding is
IsInternal-wrapped p e d = (d.unlike_not_found, d.unlike_validation)

pub or_not_found-driver :
    (p : String) (e : Error) → IsDriver e → or_not_found p (err e) ≡ err (wrapped p e)
or_not_found-driver p e d = rw (d.unlike_no_rows) refl

pub or_not_found-first :
    (p : String) (rs : List Row) (n : ℕ) (o : Option Task)
    → head (map row_task rs) ≡ o
    → or_not_found p (scan_task (first_row (record { answers = map row_cells rs; affected = n })))
      ≡ found o
unfolding is
or_not_found-first p rs n none h = rw (scan_first rs n, h) refl
or_not_found-first p rs n (some t) h = rw (scan_first rs n, h) refl

pub get-Reads :
    (id : ℤ) (before after : Table) (row : Result (List Datum))
    → Outcome first_row (execute get_statement (bigint id ∷ []) before) before row after
    → Reads
        (get_spec id (live_of before))
        (live_of before)
        (or_not_found "postgrestask: get by id: " (scan_task row))
        (live_of after)
unfolding execute
get-Reads id before after row (carried_out out e h) =
    let q = all_hold (bigint id ∷ []) (id_is 1 ∷ is_live ∷ []) in
    let (answers, same) = some_pair e in
    let found_first =
      ap head (select-live_tasks q (λ t. eqb_ℤ t.id id) before.rows (by_id-Selects id []))
      ∙ head-filterb id (live_of before) in
    record {
      answer = answered (
          ap (λ x. or_not_found "postgrestask: get by id: " (scan_task x))
            (h ∙ ap first_row (sym answers))
          ∙ or_not_found-first "postgrestask: get by id: " (filterb q before.rows)
              (length (filterb q before.rows)) (find id (live_of before)) found_first);
      kept = ap live_of (sym same);
    }
get-Reads id before after row (refused x e d same) = record {
  answer =
      failed (wrapped "postgrestask: get by id: " x)
        (rw e (or_not_found-driver "postgrestask: get by id: " x d))
        (IsInternal-wrapped "postgrestask: get by id: " x d);
  kept = ap live_tasks same.rows_kept;
}
get-Reads id before after row (lost out x ran e d) = record {
  answer =
      failed (wrapped "postgrestask: get by id: " x)
        (rw e (or_not_found-driver "postgrestask: get by id: " x d))
        (IsInternal-wrapped "postgrestask: get by id: " x d);
  kept = ap live_of (sym (some_pair ran).1);
}

-- The rows of a list: the page of the matching live tasks.
page_rows :
    (req : ListTasksRequest) (n : ℕ) (rs : List Row)
    → let q =
        all_hold
          (list_sent_args req)
          (filters (status_given req) (assignee_given req) (cursor_given req)) in
      map row_task (take n (filterb q rs)) ≡ take n (filterb (matches req) (live_tasks rs))
page_rows req n rs =
    let q =
      all_hold (list_sent_args req)
        (filters (status_given req) (assignee_given req) (cursor_given req)) in
    map-take row_task n (filterb q rs)
    ∙ ap (take n) (select-live_tasks q (matches req) rs (filters-Selects req))

-- The last argument is the limit.
limit_argument :
    (s a c : Bool) (req : ListTasksRequest)
    → int_argument (1 + count_if s + count_if a + count_if c) (list_args s a c req) ≡ req.limit
limit_argument true true true req = refl
limit_argument true true false req = refl
limit_argument true false true req = refl
limit_argument true false false req = refl
limit_argument false true true req = refl
limit_argument false true false req = refl
limit_argument false false true req = refl
limit_argument false false false req = refl

sent_limit :
    (req : ListTasksRequest)
    → int_argument
        (1
          + count_if (status_given req)
          + count_if (assignee_given req)
          + count_if (cursor_given req))
        (list_sent_args req)
      ≡ req.limit
sent_limit req = limit_argument (status_given req) (assignee_given req) (cursor_given req) req

streamed-Answers :
    (rs : List Row) (n : ℕ) (ts : List Task) (rows : Rows)
    → map row_task rs ≡ ts
    → Streams (record { answers = map row_cells rs; affected = n }) rows
    → Answers (ok ts) (scan_all (ok rows))
streamed-Answers rs n ts rows same (streamed scanned failure) = answered (
    ap (λ x. scan_rows x rows.failure) scanned
    ∙ ap (scan_rows (map ok (map row_cells rs))) failure
    ∙ scan_rows-map rs
    ∙ ap ok same)
streamed-Answers rs n ts rows same (broken k e scanned failure d) =
    failed (wrapped "postgrestask: list rows: " e)
      (ap (λ x. scan_rows x rows.failure) scanned
        ∙ ap (scan_rows (map ok (take k (map row_cells rs)))) failure
        ∙ scan_rows-broken k rs e)
      (IsInternal-wrapped "postgrestask: list rows: " e d)

pub list-Reads :
    (req : ListTasksRequest) (before after : Table) (rows : Result Rows)
    → QueryOutcome (execute (list_sends req) (list_sent_args req) before) before rows after
    → Reads (ok (page req (live_of before))) (live_of before) (scan_all rows) (live_of after)
unfolding execute
list-Reads req before after rows (opened out stream e h streams) =
    let q =
      all_hold (list_sent_args req)
        (filters (status_given req) (assignee_given req) (cursor_given req)) in
    let n = pos_part (
      int_argument
        (1
          + count_if (status_given req)
          + count_if (assignee_given req)
          + count_if (cursor_given req))
        (list_sent_args req)) in
    let (answers, same) = some_pair e in
    let whole =
      page_rows req n before.rows
      ∙ ap (λ l. take (pos_part l) (filterb (matches req) (live_of before))) (sent_limit req) in
    record {
      answer =
          subst (λ r. Answers (ok (page req (live_of before))) (scan_all r)) (sym h)
            (streamed-Answers (take n (filterb q before.rows))
              (length (take n (filterb q before.rows))) (page req (live_of before)) stream whole
              (subst (λ o. Streams o stream) (sym answers) streams));
      kept = ap live_of (sym same);
    }
list-Reads req before after rows (not_opened x e d same) = record {
  answer =
      failed (wrapped "postgrestask: list: " x) (ap scan_all e)
        (IsInternal-wrapped "postgrestask: list: " x d);
  kept = ap live_tasks same.rows_kept;
}

filterb-true : (ts : List Task) → filterb (λ t. true) ts ≡ ts
filterb-true [] = refl
filterb-true (t ∷ ts) = ap (λ r. t ∷ r) (filterb-true ts)

pub count-Reads :
    (before after : Table) (row : Result (List Datum))
    → Outcome first_row (execute count_statement [] before) before row after
    → Reads
        (ok (pos (length (live_of before))))
        (live_of before)
        (wrap_error "postgrestask: count: " (scan_int row))
        (live_of after)
unfolding execute
count-Reads before after row (carried_out out e h) =
    let q = all_hold [] (is_live ∷ []) in
    let (answers, same) = some_pair e in
    let counted =
      sym (length-map row_task (filterb q before.rows))
      ∙ ap length (select-live_tasks q (λ t. true) before.rows (λ r. ground arith))
      ∙ ap length (filterb-true (live_of before)) in
    record {
      answer = answered (
          ap (λ x. wrap_error "postgrestask: count: " (scan_int x)) (h ∙ ap first_row (sym answers))
          ∙ ap (λ n. ok (pos n)) counted);
      kept = ap live_of (sym same);
    }
count-Reads before after row (refused x e d same) = record {
  answer =
      failed (wrapped "postgrestask: count: " x)
        (ap (λ r. wrap_error "postgrestask: count: " (scan_int r)) e)
        (IsInternal-wrapped "postgrestask: count: " x d);
  kept = ap live_tasks same.rows_kept;
}
count-Reads before after row (lost out x ran e d) = record {
  answer =
      failed (wrapped "postgrestask: count: " x)
        (ap (λ r. wrap_error "postgrestask: count: " (scan_int r)) e)
        (IsInternal-wrapped "postgrestask: count: " x d);
  kept = ap live_of (sym (some_pair ran).1);
}
