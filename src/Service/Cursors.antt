-- ===== src/Service/Cursors.antt =====
-- A cursor: the tasks below the last id of a page are the ones that the page left out.
use graph_code_challenge.Param.{ListTasksRequest}
use graph_code_challenge.Entity.{Task}
use graph_code_challenge.Prelude.{
  ◌≤◌, filterb_and, All-filterb_self, ltb_ℤ_iff, All-map, leb_ℤ_iff, ◌&&◌, filterb-All, ◌⊎◌, ◌∙◌,
  ltb_ℤ-false, ◌≤ℤ◌, length-take, filterb_skip, All, true, arith, drop, ◌≡◌, All-filterb,
  Bool-cases, ◌<ℤ◌, ltb_ℤ, take, filterb, length, ◌∷◌, ◌<◌, Bool, ℕ, List, ℤ, inr, inl, pos, suc,
  zero, [],
}
use graph_code_challenge.Service.{last_id}
use graph_code_challenge.Repository.Tasks.{AllBelow, IsDescending, matches}

IsDescending-filterb :
    (p : Task → Bool) (ts : List Task) → IsDescending ts → IsDescending (filterb p ts)
IsDescending-filterb p [] h = tt
IsDescending-filterb p (t ∷ ts) (positive, below, rest) = elim (Bool-cases (p t)) [
  | inl y ↦
      rw y (positive, All-filterb (λ u. u.id <ℤ t.id) p ts below, IsDescending-filterb p ts rest)
  | inr n ↦ rw n (IsDescending-filterb p ts rest)
]

last-lt-head :
    (id : ℤ) (n : ℕ) (t : Task) (ts : List Task)
    → AllBelow id (t ∷ ts)
    → last_id (take (suc n) (t ∷ ts)) <ℤ id
last-lt-head id zero t [] h = h.0
last-lt-head id zero t (u ∷ ts) h = h.0
last-lt-head id (suc n) t [] h = h.0
last-lt-head id (suc n) t (u ∷ ts) h = last-lt-head id n u ts h.1

-- In a descending list the tasks below the last of the first `n` are all but those.
filterb-below_last :
    (n : ℕ) (ts : List Task)
    → IsDescending ts
    → n < length ts
    → filterb (λ t. ltb_ℤ t.id (last_id (take (suc n) ts))) ts ≡ drop (suc n) ts
filterb-below_last n [] h lt = absurd (omega arith)
filterb-below_last zero (t ∷ ts) (_, below, _) lt =
    filterb_skip (λ x. ltb_ℤ x.id t.id) t ts (ltb_ℤ-false t.id t.id (omega arith))
    ∙ filterb-All (λ x. ltb_ℤ x.id t.id) ts (All-map (λ u b. (ltb_ℤ_iff u.id t.id).1 b) ts below)
filterb-below_last (suc n) (t ∷ []) h lt = absurd (omega arith)
filterb-below_last (suc n) (t ∷ u ∷ ts) (_, below, rest) lt =
    let last = last_id (take (suc n) (u ∷ ts)) in
    filterb_skip (λ x. ltb_ℤ x.id last) t (u ∷ ts)
      (ltb_ℤ-false t.id last (omega (arith, last-lt-head t.id n u ts below)))
    ∙ filterb-below_last n (u ∷ ts) rest (omega arith)

last_id_All :
    (P : ℤ → Type 0) (ts : List Task) → 0 < length ts → All (λ t. P t.id) ts → P (last_id ts)
last_id_All P [] lt h = absurd (omega arith)
last_id_All P (t ∷ []) lt h = h.0
last_id_All P (t ∷ u ∷ ts) lt h = last_id_All P (u ∷ ts) (omega arith) h.1

All-take {κ} : {A : Type 0} (P : A → Type κ) (n : ℕ) (xs : List A) → All P xs → All P (take n xs)
All-take P zero xs h = tt
All-take P (suc n) [] h = tt
All-take P (suc n) (x ∷ xs) h = (h.0, All-take P n xs h.1)

IsDescending-positive : (ts : List Task) → IsDescending ts → All (λ t. pos 1 ≤ℤ t.id) ts
IsDescending-positive [] h = tt
IsDescending-positive (t ∷ ts) (positive, _, rest) = (positive, IsDescending-positive ts rest)

-- The filter with a later cursor is the filter with the earlier one, below the later one.
matches-cursor :
    (req : ListTasksRequest) (c : ℤ) (t : Task)
    → pos 1 ≤ℤ c
    → (req.cursor ≤ℤ pos 0) ⊎ (c <ℤ req.cursor)
    → matches (record req { cursor = c }) t ≡ (matches req t && ltb_ℤ t.id c)
matches-cursor req c t positive later = ground (
  arith,
  leb_ℤ_iff c (pos 0),
  leb_ℤ_iff req.cursor (pos 0),
  ltb_ℤ_iff t.id c,
  ltb_ℤ_iff t.id req.cursor,
)

matches-before :
    (req : ListTasksRequest) (t : Task)
    → matches req t ≡ true
    → (req.cursor ≤ℤ pos 0) ⊎ (t.id <ℤ req.cursor)
matches-before req t h = ground (arith, leb_ℤ_iff req.cursor (pos 0), ltb_ℤ_iff t.id req.cursor)

filterb-next_cursor_suc :
    (req : ListTasksRequest) (n : ℕ) (ts : List Task)
    → IsDescending ts
    → n < length (filterb (matches req) ts)
    → let matching = filterb (matches req) ts in
      filterb (matches (record req { cursor = last_id (take (suc n) matching) })) ts
      ≡ drop (suc n) matching
filterb-next_cursor_suc req n ts h lt =
    let matching = filterb (matches req) ts in
    let desc = IsDescending-filterb (matches req) ts h in
    let c = last_id (take (suc n) matching) in
    let some_left : 0 < length (take (suc n) matching) =
      omega (arith, length-take (suc n) matching) in
    let positive : pos 1 ≤ℤ c =
      last_id_All (λ id. pos 1 ≤ℤ id) (take (suc n) matching) some_left
        (All-take (λ t. pos 1 ≤ℤ t.id) (suc n) matching (IsDescending-positive matching desc)) in
    let before : (req.cursor ≤ℤ pos 0) ⊎ (c <ℤ req.cursor) =
      last_id_All (λ id. (req.cursor ≤ℤ pos 0) ⊎ (id <ℤ req.cursor)) (take (suc n) matching)
        some_left
        (All-take (λ t. (req.cursor ≤ℤ pos 0) ⊎ (t.id <ℤ req.cursor)) (suc n) matching
          (All-map (matches-before req) matching (All-filterb_self (matches req) ts))) in
    filterb_and (matches req) (λ t. ltb_ℤ t.id c) (matches (record req { cursor = c })) ts
      (λ t. matches-cursor req c t positive before)
    ∙ filterb-below_last n matching desc lt

-- Going on from the last id of a page of `n` tasks, the matching tasks are those after the page.
pub filterb-next_cursor :
    (req : ListTasksRequest) (n : ℕ) (ts : List Task)
    → IsDescending ts
    → 1 ≤ n
    → n < length (filterb (matches req) ts)
    → let matching = filterb (matches req) ts in
      filterb (matches (record req { cursor = last_id (take n matching) })) ts ≡ drop n matching
filterb-next_cursor req zero ts h some_on_page lt = absurd (omega arith)
filterb-next_cursor req (suc m) ts h some_on_page lt =
    filterb-next_cursor_suc req m ts h (omega arith)
