-- ===== src/Cache/Generations/Fresh.antt =====
-- A page under the current generation shows the current table, but for writes that have not retired the
-- lists yet.
use graph_code_challenge.Prelude.{
  sym, subst, ◌≤◌, ◌<◌, ◌∙◌, arith, ◌⊎◌, ◌≡◌, refl, inr, inl, suc, some, ℕ,
}
use graph_code_challenge.Cache.Clients.{set_at, Some, keeps-Some}
use graph_code_challenge.Cache.Generations.{
  Place, away, has_generation, misses_page, has_page, has_committed, Lists, World,
}

-- The client has committed a write and has not yet replaced the generation.
abbrev pub IsRetiring : Place → Type 0
IsRetiring has_committed = Unit
IsRetiring _ = ⊥

abbrev pub IsCurrent : World → ℕ → Type 0
IsCurrent s v = (v ≡ s.lists.version) ⊎ Some IsRetiring s.place

-- The generation that a client uses.
abbrev pub Uses : ℕ → Place → Type 0
Uses g away = ⊥
Uses g (has_generation h) = g ≡ h
Uses g (misses_page h) = g ≡ h
Uses g (has_page h v) = g ≡ h
Uses g has_committed = ⊥

pub record Invariant (s : World) : Type 0 where
  pub pages_current :
      (g v : ℕ) → s.lists.generation ≡ some g → s.lists.pages g ≡ some v → IsCurrent s v
  pub held_current :
      (i g v : ℕ) → s.lists.generation ≡ some g → s.place i ≡ has_page g v → IsCurrent s v
  pub generation_drawn : (g : ℕ) → s.lists.generation ≡ some g → g < s.lists.drawn
  pub pages_drawn : (g v : ℕ) → s.lists.pages g ≡ some v → g < s.lists.drawn
  pub used_drawn : (i g : ℕ) → Uses g (s.place i) → g < s.lists.drawn

abbrev pub after : World → ℕ → Lists → Place → World
after s i m p = record { lists = m; place = set_at s.place i p }

pub carry :
    (s : World) (i : ℕ) (m : Lists) (p' : Place) (v : ℕ)
    → m.version ≡ s.lists.version
    → (IsRetiring (s.place i) → IsRetiring p')
    → IsCurrent s v
    → IsCurrent (after s i m p') v
carry s i m p' v same still (inl e) = inl (e ∙ sym same)
carry s i m p' v same still (inr retiring) = inr (keeps-Some IsRetiring s.place i p' still retiring)

-- What a move leaves of the invariant, the client that moved apart from the others.
pub record Keeps (s : World) (i : ℕ) (m : Lists) (p : Place) : Type 0 where
  pub pages_kept :
      (g v : ℕ) → m.generation ≡ some g → m.pages g ≡ some v → IsCurrent (after s i m p) v
  pub others_kept :
      (j g v : ℕ) → m.generation ≡ some g → s.place j ≡ has_page g v → IsCurrent (after s i m p) v
  pub own_kept : (g v : ℕ) → m.generation ≡ some g → p ≡ has_page g v → IsCurrent (after s i m p) v
  pub generation_kept : (g : ℕ) → m.generation ≡ some g → g < m.drawn
  pub pages_drawn_kept : (g v : ℕ) → m.pages g ≡ some v → g < m.drawn
  pub more_drawn : s.lists.drawn ≤ m.drawn
  pub own_drawn : (g : ℕ) → Uses g p → g < m.drawn

-- A move that only changes where its client stands.
pub steps :
    (s : World) (i : ℕ) (p p' : Place)
    → s.place i ≡ p
    → Invariant s
    → (IsRetiring p → ⊥)
    → ((g v : ℕ) → p' ≡ has_page g v → v ≡ s.lists.version)
    → ((g : ℕ) → Uses g p' → g < s.lists.drawn)
    → Keeps s i s.lists p'
steps s i p p' at inv settled own used =
    let still = λ (x : IsRetiring (s.place i)). absurd (settled (subst IsRetiring at x)) in
    record {
      pages_kept = λ g v e f. carry s i s.lists p' v refl still (inv.pages_current g v e f);
      others_kept = λ j g v e f. carry s i s.lists p' v refl still (inv.held_current j g v e f);
      own_kept = λ g v e f. inl (own g v f);
      generation_kept = inv.generation_drawn;
      pages_drawn_kept = inv.pages_drawn;
      more_drawn = omega arith;
      own_drawn = used;
    }

-- A new generation: nothing is stored under it, and no client uses it.
pub renews :
    (s : World) (i : ℕ) (p' : Place)
    → Invariant s
    → ((g v : ℕ) → p' ≡ has_page g v → ⊥)
    → ((g : ℕ) → Uses g p' → g ≡ s.lists.drawn)
    → Keeps s i (record s.lists { generation = some s.lists.drawn; drawn = suc s.lists.drawn }) p'
renews s i p' inv own used = record {
  pages_kept = λ g v e f. let low = inv.pages_drawn g v f in absurd (ground arith);
  others_kept = λ j g v e f.
      let low = inv.used_drawn j g (subst (Uses g) (sym f) refl) in absurd (ground arith);
  own_kept = λ g v e f. absurd (own g v f);
  generation_kept = λ g e. ground arith;
  pages_drawn_kept = λ g v f. let low = inv.pages_drawn g v f in omega arith;
  more_drawn = omega arith;
  own_drawn = λ g u. let new = used g u in omega arith;
}
