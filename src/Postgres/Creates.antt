-- ===== src/Postgres/Creates.antt =====
-- The creation of a task by the adapter, from the outcome of its statement.
use graph_code_challenge.Postgres.Settles.{settled, unanswered, SettlesNew}
use graph_code_challenge.Postgres.Sequence.{KeepsIds-Leaves, KeepsIds}
use graph_code_challenge.Postgres.Lives.{live_tasks}
use graph_code_challenge.Postgres.Scans.{some_pair}
use graph_code_challenge.Repository.Descending.{insert_above, find_above, AllBelow-trans}
use graph_code_challenge.Postgres.Adapter.{scan_int}
use graph_code_challenge.Postgres.Laws.{refused, lost, IsLost, carried_out, first_row, Outcome}
use graph_code_challenge.Postgres.Reads.{IsInternal-wrapped, live_of}
use graph_code_challenge.Postgres.Execution.{inserted_row, Output, execute}
use graph_code_challenge.Repository.Tasks.{insert, find}
use graph_code_challenge.Entity.{Task}
use graph_code_challenge.Errors.{ok, map_ok, wrap_error, Result, wrapped}
use graph_code_challenge.Prelude.{
  some, none, sym, subst, ◌∙◌, ap, ltb→lt, arith, ltb, ◌≡◌, Bool-cases, ◌^◌, ◌<◌, ◌∷◌, inr, inl,
  pos, suc, [], List, ℤ, ℕ,
}
use graph_code_challenge.Repository.Spec.{Creates, created, failed}
use graph_code_challenge.Postgres.{bigint, varchar, Datum}
use graph_code_challenge.Postgres.Statements.{insert_task, Table}

abbrev pub create_args : Task → List Datum
create_args task =
    varchar task.title ∷ varchar task.description ∷ varchar task.status ∷ varchar task.assignee ∷ []

abbrev pub created_result : Task → Result (List Datum) → Result Task
created_result task row =
    wrap_error "postgrestask: create: " (map_ok (λ (i : ℤ). record task { id = i }) (scan_int row))

abbrev made_of : Task → ℕ → Task
made_of task n = record task { id = pos n }

-- What a creation that was carried out answers, and what it leaves.
record Created (task : Task) (before after : Table) (row : Result (List Datum)) : Type 0 where
  answer : created_result task row ≡ ok (made_of task before.next)
  new : find (pos before.next) (live_of before) ≡ none
  inserted : live_of after ≡ insert (made_of task before.next) (live_of before)
  keeps : KeepsIds after

create_low :
    (task : Task) (before after : Table) (out : Output)
    → KeepsIds before
    → before.next < 2 ^ 63
    → record { answers = (bigint (pos before.next) ∷ []) ∷ []; affected = 1 } ≡ out
    → record {
      rows = inserted_row (create_args task) before.next ∷ before.rows;
      next = suc before.next;
    }
      ≡ after
    → Created task before after (first_row out)
create_low task before after out keeps low answers same =
    let made = made_of task before.next in
    let bounds =
      AllBelow-trans (pos before.next) (pos (suc before.next)) (live_of before) keeps.below_next
        (omega arith) in
    record {
      answer = ap (λ o. created_result task (first_row o)) (sym answers);
      new = find_above (pos before.next) (live_of before) keeps.below_next;
      inserted = ap live_of (sym same) ∙ sym (insert_above made (live_of before) keeps.below_next);
      keeps = subst KeepsIds same (record {
        in_order = (keeps.first_id, keeps.below_next, keeps.in_order);
        below_next = (omega arith, bounds);
        first_id = omega arith;
        last_id_bound = low;
      });
    }

create-carried :
    (task : Task) (before after : Table) (out : Output)
    → KeepsIds before
    → execute insert_task (create_args task) before ≡ some (out, after)
    → Created task before after (first_row out)
unfolding execute
create-carried task before after out keeps e = elim (Bool-cases (ltb before.next (2 ^ 63))) [
  | inl low ↦
      let ran = e in
      let (answers, same) = some_pair (rw low at ran) in
      create_low task before after out keeps (ltb→lt before.next (2 ^ 63) low) answers same
  | inr full ↦ let ran = e in let impossible = rw full at ran in absurd cc
]

pub create-Creates :
    (task : Task) (before after : Table) (row : Result (List Datum))
    → KeepsIds before
    → (o : Outcome first_row (execute insert_task (create_args task) before) before row after)
    → ¬ IsLost o
    → Creates task (live_of before) (created_result task row) (live_of after) × KeepsIds after
create-Creates task before after row keeps (carried_out out e h) arrived =
    let made = create-carried task before after out keeps e in
    (
      created (pos before.next) keeps.first_id made.new (ap (created_result task) h ∙ made.answer)
          made.inserted,
      made.keeps,
    )
create-Creates task before after row keeps (refused x e d leaves) arrived = (
  failed (wrapped "postgrestask: create: " x) (ap (created_result task) e)
      (IsInternal-wrapped "postgrestask: create: " x d) (ap live_tasks leaves.rows_kept),
  KeepsIds-Leaves before after keeps leaves,
)
create-Creates task before after row keeps (lost out x e h d) arrived = absurd (arrived tt)

pub create-Settles :
    (task : Task) (before after : Table) (row : Result (List Datum))
    → KeepsIds before
    → Outcome first_row (execute insert_task (create_args task) before) before row after
    → SettlesNew task (live_of before) (created_result task row) (live_of after) × KeepsIds after
create-Settles task before after row keeps (lost out x e h d) =
    let made = create-carried task before after out keeps e in
    (
      unanswered (pos before.next) (wrapped "postgrestask: create: " x) keeps.first_id made.new
          (ap (created_result task) h) (IsInternal-wrapped "postgrestask: create: " x d)
          made.inserted,
      made.keeps,
    )
create-Settles task before after row keeps (carried_out out e h) =
    let (creates, keeps') =
      create-Creates task before after row keeps (carried_out out e h) (λ x. x) in
    (settled creates, keeps')
create-Settles task before after row keeps (refused x e d leaves) =
    let (creates, keeps') =
      create-Creates task before after row keeps (refused x e d leaves) (λ x. x) in
    (settled creates, keeps')
