-- ===== src/Repository/Descending.antt =====
-- The table's operations keep its ids in order and below a bound.
use graph_code_challenge.Entity.{Task}
use graph_code_challenge.Param.{UpdateTaskRequest}
use graph_code_challenge.Prelude.{
  sym, eqb_ℤ_iff, pos_part, subst, leb_ℤ_iff, eqb_ℤ, Option-cases, ◌<◌, Bool-cases, arith, length,
  neg_part, ◌∷◌, ◌≡◌, ◌≤ℤ◌, refl, inr, inl, negsuc, pos, some, none, [], List, ℤ,
}
use graph_code_challenge.Repository.Tasks.{
  update_spec, delete_spec, find, insert, remove, replace, IsDescending, AllBelow,
}

pub AllBelow-trans : (a b : ℤ) (ts : List Task) → AllBelow a ts → a ≤ℤ b → AllBelow b ts
AllBelow-trans a b [] h l = tt
AllBelow-trans a b (t ∷ ts) (h, hs) l = (omega arith, AllBelow-trans a b ts hs l)

pub find_above : (id : ℤ) (ts : List Task) → AllBelow id ts → find id ts ≡ none
find_above id [] h = refl
find_above id (t ∷ ts) (h, hs) = ground (arith, eqb_ℤ_iff t.id id, find_above id ts hs)

pub insert_above : (t : Task) (ts : List Task) → AllBelow t.id ts → insert t ts ≡ t ∷ ts
insert_above t [] h = refl
insert_above t (x ∷ ts) (h, hs) = ground (arith, leb_ℤ_iff x.id t.id)

pub AllBelow-remove : (id b : ℤ) (ts : List Task) → AllBelow b ts → AllBelow b (remove id ts)
AllBelow-remove id b [] h = tt
AllBelow-remove id b (t ∷ ts) (h, hs) = elim (Bool-cases (eqb_ℤ t.id id)) [
  | inl same ↦ rw same (AllBelow-remove id b ts hs)
  | inr other ↦ rw other (h, AllBelow-remove id b ts hs)
]

pub IsDescending-remove : (id : ℤ) (ts : List Task) → IsDescending ts → IsDescending (remove id ts)
IsDescending-remove id [] d = tt
IsDescending-remove id (t ∷ ts) (p, b, d) = elim (Bool-cases (eqb_ℤ t.id id)) [
  | inl same ↦ rw same (IsDescending-remove id ts d)
  | inr other ↦ rw other (p, AllBelow-remove id t.id ts b, IsDescending-remove id ts d)
]

pub AllBelow-replace :
    (req : UpdateTaskRequest) (b : ℤ) (ts : List Task) → AllBelow b ts → AllBelow b (replace req ts)
AllBelow-replace req b [] h = tt
AllBelow-replace req b (t ∷ ts) (h, hs) = elim (Bool-cases (eqb_ℤ t.id req.id)) [
  | inl same ↦ rw same (h, AllBelow-replace req b ts hs)
  | inr other ↦ rw other (h, AllBelow-replace req b ts hs)
]

pub IsDescending-replace :
    (req : UpdateTaskRequest) (ts : List Task) → IsDescending ts → IsDescending (replace req ts)
IsDescending-replace req [] d = tt
IsDescending-replace req (t ∷ ts) (p, b, d) = elim (Bool-cases (eqb_ℤ t.id req.id)) [
  | inl same ↦ rw same (p, AllBelow-replace req t.id ts b, IsDescending-replace req ts d)
  | inr other ↦ rw other (p, AllBelow-replace req t.id ts b, IsDescending-replace req ts d)
]

pub update_spec-missing :
    (req : UpdateTaskRequest) (ts : List Task) → find req.id ts ≡ none → (update_spec req ts).1 ≡ ts
update_spec-missing req ts e = rw (e, update_spec) refl

pub update_spec-there :
    (req : UpdateTaskRequest) (ts : List Task) {t : Task}
    → find req.id ts ≡ some t
    → (update_spec req ts).1 ≡ replace req ts
update_spec-there req ts e = rw (e, update_spec) refl

pub delete_spec-missing : (id : ℤ) (ts : List Task) → find id ts ≡ none → (delete_spec id ts).1 ≡ ts
delete_spec-missing id ts e = rw (e, delete_spec) refl

pub delete_spec-there :
    (id : ℤ) (ts : List Task) {t : Task}
    → find id ts ≡ some t
    → (delete_spec id ts).1 ≡ remove id ts
delete_spec-there id ts e = rw (e, delete_spec) refl

pub IsDescending-update_spec :
    (req : UpdateTaskRequest) (ts : List Task)
    → IsDescending ts
    → IsDescending (update_spec req ts).1
IsDescending-update_spec req ts d = elim (Option-cases (find req.id ts)) [
  | inl missing ↦ subst IsDescending (sym (update_spec-missing req ts missing)) d
  | inr (t, there) ↦
      subst IsDescending (sym (update_spec-there req ts there)) (IsDescending-replace req ts d)
]

pub IsDescending-delete_spec :
    (id : ℤ) (ts : List Task) → IsDescending ts → IsDescending (delete_spec id ts).1
IsDescending-delete_spec id ts d = elim (Option-cases (find id ts)) [
  | inl missing ↦ subst IsDescending (sym (delete_spec-missing id ts missing)) d
  | inr (t, there) ↦
      subst IsDescending (sym (delete_spec-there id ts there)) (IsDescending-remove id ts d)
]

pub neg_part_of_pos : (a : ℤ) → pos 1 ≤ℤ a → neg_part a ≡ 0
neg_part_of_pos (pos n) h = refl
neg_part_of_pos (negsuc n) h = absurd (omega arith)

pub length-lt :
    (b : ℤ) (ts : List Task) → pos 1 ≤ℤ b → IsDescending ts → AllBelow b ts → length ts < pos_part b
length-lt b [] p d h = omega arith
length-lt b (t ∷ ts) p (q, below, d) (h, hs) =
    omega (arith, length-lt t.id ts q d below, neg_part_of_pos b p, neg_part_of_pos t.id q)

pub AllBelow-update_spec :
    (b : ℤ) (req : UpdateTaskRequest) (ts : List Task)
    → AllBelow b ts
    → AllBelow b (update_spec req ts).1
AllBelow-update_spec b req ts h = elim (Option-cases (find req.id ts)) [
  | inl missing ↦ subst (AllBelow b) (sym (update_spec-missing req ts missing)) h
  | inr (t, there) ↦
      subst (AllBelow b) (sym (update_spec-there req ts there)) (AllBelow-replace req b ts h)
]

pub AllBelow-delete_spec :
    (b id : ℤ) (ts : List Task) → AllBelow b ts → AllBelow b (delete_spec id ts).1
AllBelow-delete_spec b id ts h = elim (Option-cases (find id ts)) [
  | inl missing ↦ subst (AllBelow b) (sym (delete_spec-missing id ts missing)) h
  | inr (t, there) ↦
      subst (AllBelow b) (sym (delete_spec-there id ts there)) (AllBelow-remove id b ts h)
]
