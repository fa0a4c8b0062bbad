-- ===== src/Postgres/Sequence.antt =====
-- The ids of the live rows and the sequence that gives new ones.
use graph_code_challenge.Repository.Descending.{AllBelow-trans}
use graph_code_challenge.Postgres.Scans.{some_pair}
use graph_code_challenge.Postgres.{Rows}
use graph_code_challenge.Postgres.Lives.{live_tasks}
use graph_code_challenge.Postgres.Reads.{live_of}
use graph_code_challenge.Errors.{Result}
use graph_code_challenge.Repository.Tasks.{AllBelow, IsDescending}
use graph_code_challenge.Postgres.Execution.{Output}
use graph_code_challenge.Postgres.Statements.{Table}
use graph_code_challenge.Prelude.{◌^◌, ◌≤◌, arith, ◌≤ℤ◌, sym, subst, ap, pos, some}
use graph_code_challenge.Postgres.Laws.{
  Leaves, Outcome, QueryOutcome, refused, lost, carried_out, opened, not_opened,
}

-- The live ids fall along the rows, and lie below what the sequence gives next.
pub record KeepsIds (t : Table) : Type 0 where
  pub in_order : IsDescending (live_of t)
  pub below_next : AllBelow (pos t.next) (live_of t)
  pub first_id : pos 1 ≤ℤ pos t.next
  pub last_id_bound : t.next ≤ 2 ^ 63

pub KeepsIds-Leaves :
    (before after : Table) → KeepsIds before → Leaves before after → KeepsIds after
KeepsIds-Leaves before after keeps leaves =
    let same = ap live_tasks (sym leaves.rows_kept) in
    let first = keeps.first_id in
    let higher = leaves.not_lower in
    record {
      in_order = subst IsDescending same keeps.in_order;
      below_next =
          AllBelow-trans (pos before.next) (pos after.next) (live_of after)
            (subst (AllBelow (pos before.next)) same keeps.below_next) (omega arith);
      first_id = omega arith;
      last_id_bound = leaves.in_range keeps.last_id_bound;
    }

-- A statement that only reads keeps them, however it ends.
pub KeepsIds-Outcome :
    {A : Type 0} {read : Output → Result A} {o : Output} {before after : Table} {r : Result A}
    → Outcome read (some (o, before)) before r after
    → KeepsIds before
    → KeepsIds after
KeepsIds-Outcome (carried_out out e h) keeps = subst KeepsIds (some_pair e).1 keeps
KeepsIds-Outcome {before = before} {after = after} (refused x e d leaves) keeps =
    KeepsIds-Leaves before after keeps leaves
KeepsIds-Outcome (lost out x e h d) keeps = subst KeepsIds (some_pair e).1 keeps

pub KeepsIds-QueryOutcome :
    {o : Output} {before after : Table} {r : Result Rows}
    → QueryOutcome (some (o, before)) before r after
    → KeepsIds before
    → KeepsIds after
KeepsIds-QueryOutcome (opened out rows e h streams) keeps = subst KeepsIds (some_pair e).1 keeps
KeepsIds-QueryOutcome {before = before} {after = after} (not_opened x e d leaves) keeps =
    KeepsIds-Leaves before after keeps leaves
