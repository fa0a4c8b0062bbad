-- ===== src/Validator/Maps.antt =====
-- The map of messages that a validator fills: its keys, and when it stays empty.
use graph_code_challenge.Prelude.{
  All, ◌&&◌, not, ◌||◌, ◌∙◌, Bool, false, List, true, String, ◌≡◌, refl, ◌≢◌, ◌↔◌, Option, none,
  some, [], ◌∷◌, arith, eq_iff, ◌==◌, if◌then◌else◌,
}
use graph_code_challenge.Validator.{Fields, insert, set, result, err_invalid_request}

-- `fields[name]`
unfoldable pub lookup : String → Fields → Option String
lookup j [] = none
lookup j ((k, m) ∷ fields) = if k == j then some m else lookup j fields

-- What a check leaves in the map under its field's name.
abbrev reported : String → Option String
reported m = if m == "" then none else some m

lookup-insert :
    (f : Fields) (k m j : String)
    → lookup j (insert f k m) ≡ (if k == j then some m else lookup j f)
unfolding lookup insert
lookup-insert [] k m j = refl
lookup-insert ((i, n) ∷ f) k m j =
    ground (arith, eq_iff k j, eq_iff i k, eq_iff i j, lookup-insert f k m j)

lookup-set :
    (f : Fields) (k m j : String)
    → lookup j (set f k m) ≡ (if m == "" then lookup j f else if k == j then some m else lookup j f)
unfolding set
lookup-set f k m j = ground (arith, lookup-insert f k m j)

insert-ne-nil : (f : Fields) (k m : String) → insert f k m ≢ []
unfolding insert
insert-ne-nil [] k m = cc
insert-ne-nil ((i, n) ∷ f) k m = ground arith

set-eq-nil_iff : (f : Fields) (k m : String) → (set f k m ≡ []) ↔ ((f ≡ []) × (m ≡ ""))
unfolding set
set-eq-nil_iff f k m = ground (arith, eq_iff m "", insert-ne-nil f k m)

pub result-fields : (f : Fields) → (result f).0 ≡ f
unfolding result
result-fields [] = refl
result-fields (x ∷ f) = refl

result-none_iff : (f : Fields) → ((result f).1 ≡ none) ↔ (f ≡ [])
unfolding result
result-none_iff [] = ground arith
result-none_iff (x ∷ f) = ground arith

result-some : (f : Fields) → (result f).1 ≢ none → (result f).1 ≡ some err_invalid_request
unfolding result
result-some [] h = ground arith
result-some (x ∷ f) h = refl

lookup-nil : (j : String) → lookup j [] ≡ none
unfolding lookup
lookup-nil j = refl

-- Checks, each with the name of its field.
abbrev pub Checks : Type 0
Checks = List (String × String)

-- The messages that are not empty, written in order.
abbrev pub set_all : Fields → Checks → Fields
set_all f [] = f
set_all f ((k, m) ∷ cs) = set_all (set f k m) cs

-- What is reported under a name: the message of the first check of that name, if it is not empty.
unfoldable pub report : String → Checks → Option String
report j [] = none
report j ((k, m) ∷ cs) = if k == j then reported m else report j cs

abbrev has_name : String → Checks → Bool
has_name j [] = false
has_name j ((k, m) ∷ cs) = (k == j) || has_name j cs

abbrev pub are_distinct : Checks → Bool
are_distinct [] = true
are_distinct ((k, m) ∷ cs) = not (has_name k cs) && are_distinct cs

abbrev or_else : Option String → Option String → Option String
or_else none o = o
or_else (some m) o = some m

or_else-none : (o : Option String) → or_else o none ≡ o
or_else-none none = refl
or_else-none (some m) = refl

report-absent : (j : String) (cs : Checks) → has_name j cs ≡ false → report j cs ≡ none
unfolding report
report-absent j [] h = refl
report-absent j ((k, m) ∷ cs) h = ground (arith, report-absent j cs)

lookup-set_all_from :
    (f : Fields) (cs : Checks) (j : String)
    → are_distinct cs ≡ true
    → lookup j (set_all f cs) ≡ or_else (report j cs) (lookup j f)
unfolding report
lookup-set_all_from f [] j h = refl
lookup-set_all_from f ((k, m) ∷ cs) j h = ground (
  arith,
  lookup-set_all_from (set f k m) cs j,
  lookup-set f k m j,
  report-absent k cs,
  eq_iff k j,
)

-- With distinct names the map holds under each name what its check reports.
pub lookup-set_all :
    (cs : Checks) (j : String) → are_distinct cs ≡ true → lookup j (set_all [] cs) ≡ report j cs
lookup-set_all cs j h = lookup-set_all_from [] cs j h ∙ rw lookup-nil (or_else-none (report j cs))

pub set-empty : (f : Fields) (k : String) → set f k "" ≡ f
unfolding set
set-empty f k = refl

-- No message is written exactly when every check passes.
set_all-eq-nil_iff :
    (f : Fields) (cs : Checks) → (set_all f cs ≡ []) ↔ ((f ≡ []) × All (λ c. c.1 ≡ "") cs)
set_all-eq-nil_iff f [] = (λ e. (e, tt), λ h. h.0)
set_all-eq-nil_iff f ((k, m) ∷ cs) =
    let ih = set_all-eq-nil_iff (set f k m) cs in
    let one = set-eq-nil_iff f k m in
    (
      λ e. let (a, b) = ih.0 e in let (c, d) = one.0 a in (c, (d, b)),
      λ (c, (d, b)). ih.1 (one.1 (c, d), b),
    )

pub result-set_all_iff :
    (cs : Checks) → ((result (set_all [] cs)).1 ≡ none) ↔ All (λ c. c.1 ≡ "") cs
result-set_all_iff cs = (
  λ e. ((set_all-eq-nil_iff [] cs).0 ((result-none_iff _).0 e)).1,
  λ h. (result-none_iff _).1 ((set_all-eq-nil_iff [] cs).1 (refl, h)),
)
