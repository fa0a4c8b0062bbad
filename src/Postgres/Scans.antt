-- ===== src/Postgres/Scans.antt =====
-- What the adapter scans of the rows that a statement answers with.
use graph_code_challenge.Postgres.Lives.{head}
use graph_code_challenge.Postgres.Laws.{first_row}
use graph_code_challenge.Postgres.Adapter.{scan_task, scan_rows}
use graph_code_challenge.Postgres.Execution.{cells}
use graph_code_challenge.Entity.{Task}
use graph_code_challenge.Errors.{map_ok, no_rows, Error, wrapped, sentinel, err, ok}
use graph_code_challenge.Prelude.{
  ap, take, ◌∷◌, map, ◌≡◌, length, refl, suc, zero, some, none, [], List, Option, ℕ,
}
use graph_code_challenge.Postgres.{Datum}
use graph_code_challenge.Postgres.Statements.{Row}

abbrev pub row_task : Row → Task
row_task r = r.task

abbrev pub row_cells : Row → List Datum
row_cells r = cells r.task

-- A stream of whole rows that ends well gives every task, in order.
pub scan_rows-map :
    (rs : List Row) → scan_rows (map ok (map row_cells rs)) none ≡ ok (map row_task rs)
scan_rows-map [] = refl
scan_rows-map (r ∷ rs) = ap (map_ok (λ (tasks : List Task). r.task ∷ tasks)) (scan_rows-map rs)

-- One that breaks gives its error.
pub scan_rows-broken :
    (n : ℕ) (rs : List Row) (e : Error)
    → scan_rows (map ok (take n (map row_cells rs))) (some e)
      ≡ err (wrapped "postgrestask: list rows: " e)
scan_rows-broken zero rs e = refl
scan_rows-broken (suc n) [] e = refl
scan_rows-broken (suc n) (r ∷ rs) e =
    ap (map_ok (λ (tasks : List Task). r.task ∷ tasks)) (scan_rows-broken n rs e)

pub map-take {ℓ κ} :
    {A : Type ℓ} {B : Type κ} (f : A → B) (n : ℕ) (xs : List A)
    → map f (take n xs) ≡ take n (map f xs)
map-take f zero xs = refl
map-take f (suc n) [] = refl
map-take f (suc n) (x ∷ xs) = ap (λ ys. f x ∷ ys) (map-take f n xs)

pub length-map {ℓ κ} :
    {A : Type ℓ} {B : Type κ} (f : A → B) (xs : List A) → length (map f xs) ≡ length xs
length-map f [] = refl
length-map f (x ∷ xs) = ap suc (length-map f xs)

pub scan_first :
    (rs : List Row) (n : ℕ)
    → scan_task (first_row (record { answers = map row_cells rs; affected = n }))
      ≡ elim (head (map row_task rs)) [ none ↦ err (sentinel no_rows) | some t ↦ ok t ]
scan_first [] n = refl
scan_first (r ∷ rs) n = refl

pub some_pair :
    {A B : Type 0} {a a' : A} {b b' : B}
    → ◌≡◌ {A = Option (A × B)} (some (a, b)) (some (a', b'))
    → (a ≡ a') × (b ≡ b')
some_pair e = (cc, cc)
