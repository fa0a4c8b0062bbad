-- ===== src/Postgres/Placeholders.antt =====
-- Whether the arguments of a statement fit its placeholders.
use graph_code_challenge.Postgres.Execution.{argument}
use graph_code_challenge.Postgres.Statements.{
  Column, Condition, is_live, id_is, id_below, column_is, Statement, insert_task, select_tasks,
  select_page, update_tasks, mark_deleted, count_tasks,
}
use graph_code_challenge.Prelude.{
  map, ◌&&◌, length, ◌++◌, leb_ℤ, eqb, ◌∷◌, Bool, pos, false, true, some, [], ℕ, List, Option,
}
use graph_code_challenge.Postgres.{Datum, varchar, bigint}

-- The type that a placeholder's argument has.
pub data Kind : Type 0 where
  text_kind int_kind natural_kind : Kind

abbrev is_kind : Kind → Option Datum → Bool
is_kind text_kind (some (varchar t)) = true
is_kind int_kind (some (bigint i)) = true
is_kind natural_kind (some (bigint i)) = leb_ℤ (pos 0) i
is_kind _ _ = false

abbrev condition_uses : Condition → List (Kind × ℕ)
condition_uses is_live = []
condition_uses (id_is n) = (int_kind, n) ∷ []
condition_uses (id_below n) = (int_kind, n) ∷ []
condition_uses (column_is c n) = (text_kind, n) ∷ []

abbrev conditions_use : List Condition → List (Kind × ℕ)
conditions_use [] = []
conditions_use (c ∷ cs) = condition_uses c ++ conditions_use cs

abbrev uses : Statement → List (Kind × ℕ)
uses insert_task = (text_kind, 1) ∷ (text_kind, 2) ∷ (text_kind, 3) ∷ (text_kind, 4) ∷ []
uses (select_tasks conditions) = conditions_use conditions
uses (select_page conditions n) = conditions_use conditions ++ ((natural_kind, n) ∷ [])
uses (update_tasks assignments conditions) =
    map (λ (a : Column × ℕ). (text_kind, a.1)) assignments ++ conditions_use conditions
uses (mark_deleted conditions) = conditions_use conditions
uses (count_tasks conditions) = conditions_use conditions

abbrev all_bound : List Datum → List (Kind × ℕ) → Bool
all_bound args [] = true
all_bound args ((k, n) ∷ rest) = is_kind k (argument n args) && all_bound args rest

-- Each placeholder has an argument of its type, every argument has a placeholder, and no limit is
-- negative.
abbrev pub fits : Statement → List Datum → Bool
fits st args = eqb (length (uses st)) (length args) && all_bound args (uses st)
