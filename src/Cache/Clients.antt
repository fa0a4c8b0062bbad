-- ===== src/Cache/Clients.antt =====
-- Where each of many clients stands, and how that changes when one of them moves.
use graph_code_challenge.Prelude.{
  arith, sym, ◌≡◌, if◌then◌else◌, Bool-cases, subst, eqb, inr, inl, false, true, ℕ,
}

module _ {A : Type 0} where
  abbrev pub set_at : (ℕ → A) → ℕ → A → ℕ → A
  set_at f i p j = if eqb i j then p else f j

  -- Some client stands at a place with the property.
  abbrev pub Some : (A → Type 0) → (ℕ → A) → Type 0
  Some P f = (j : ℕ) × P (f j)

eqb-eq : (i j : ℕ) → eqb i j ≡ true → i ≡ j
eqb-eq i j e = ground arith

module _ {A : Type 0} where
  set_at_self : (f : ℕ → A) (i : ℕ) (p : A) → set_at f i p i ≡ p
  set_at_self f i p = ground arith

  -- A property of where a client stands, by whether it is the one that moved.
  pub by_client :
      (P : ℕ → A → Type 0) (f : ℕ → A) (i : ℕ) (p : A)
      → P i p
      → ((j : ℕ) → eqb i j ≡ false → P j (f j))
      → (j : ℕ) → P j (set_at f i p j)
  by_client P f i p mine others j = elim (Bool-cases (eqb i j)) [
    | inl same ↦ rw same (subst (λ k. P k p) (eqb-eq i j same) mine)
    | inr other ↦ rw other (others j other)
  ]

  -- Some client still stands so, unless the one that moved was it.
  pub keeps-Some :
      (P : A → Type 0) (f : ℕ → A) (i : ℕ) (p : A)
      → (P (f i) → P p)
      → Some P f
      → Some P (set_at f i p)
  keeps-Some P f i p still (j, here) = elim (Bool-cases (eqb i j)) [
    | inl same ↦ (j, rw same (still (subst (λ k. P (f k)) (sym (eqb-eq i j same)) here)))
    | inr other ↦ (j, rw other here)
  ]

  pub now-Some : (P : A → Type 0) (f : ℕ → A) (i : ℕ) (p : A) → P p → Some P (set_at f i p)
  now-Some P f i p here = (i, subst P (sym (set_at_self f i p)) here)
