-- ===== src/Cache/Generations/Current.antt =====
-- Every step keeps the pages under the current generation current.
use graph_code_challenge.Prelude.{
  ap, ◌∙◌, sym, ◌<◌, ◌⊎◌, subst, arith, ◌≡◌, refl, inr, inl, suc, some, none, ℕ, Option,
}
use graph_code_challenge.Cache.Clients.{by_client, now-Some}
use graph_code_challenge.Cache.Generations.{
  Place, away, has_page, has_committed, Lists, put_page, Move, reads_generation, makes_generation,
  finds_page, misses_page_now, reads_table, list_fails, stores_page, store_fails, commits,
  retires_lists, World, moves, generation_expires, page_expires, Reach, begins, later,
}
use graph_code_challenge.Cache.Generations.Fresh.{
  IsRetiring, IsCurrent, Uses, Invariant, after, carry, Keeps, steps, renews,
}

put_page-cases :
    (pages : ℕ → Option ℕ) (g h v w : ℕ)
    → put_page pages g (some v) h ≡ some w
    → ((g ≡ h) × (v ≡ w)) ⊎ (pages h ≡ some w)
put_page-cases pages g h v w e = ground arith

put_none-some :
    (pages : ℕ → Option ℕ) (g h w : ℕ) → put_page pages g none h ≡ some w → pages h ≡ some w
put_none-some pages g h w e = ground arith

-- A page is stored under the generation under which it was read.
stores-Keeps :
    (s : World) (i g v : ℕ)
    → s.place i ≡ has_page g v
    → Invariant s
    → Keeps s i (record s.lists { pages = put_page s.lists.pages g (some v) }) away
stores-Keeps s i g v at inv =
    let m : Lists = record s.lists { pages = put_page s.lists.pages g (some v) } in
    let still = λ (x : IsRetiring (s.place i)). absurd (subst IsRetiring at x) in
    let mine = inv.used_drawn i g (subst (Uses g) (sym at) refl) in
    record {
      pages_kept = λ h w e f. elim (put_page-cases s.lists.pages g h v w f) [
        | inl (same, shown) ↦
            subst (IsCurrent (after s i m away)) shown
              (carry s i m away v refl still (inv.held_current i g v (e ∙ ap some (sym same)) at))
        | inr kept ↦ carry s i m away w refl still (inv.pages_current h w e kept)
      ];
      others_kept = λ j h w e f. carry s i m away w refl still (inv.held_current j h w e f);
      own_kept = λ h w e f. cc;
      generation_kept = inv.generation_drawn;
      pages_drawn_kept = λ h w f. elim (put_page-cases s.lists.pages g h v w f) [
        | inl (same, shown) ↦ subst (λ k. k < s.lists.drawn) same mine
        | inr kept ↦ inv.pages_drawn h w kept
      ];
      more_drawn = omega arith;
      own_drawn = λ h u. absurd u;
    }

commits-Keeps :
    (s : World) (i : ℕ)
    → Invariant s
    → Keeps s i (record s.lists { version = suc s.lists.version }) has_committed
commits-Keeps s i inv = record {
  pages_kept = λ g v e f. inr (now-Some IsRetiring s.place i has_committed tt);
  others_kept = λ j g v e f. inr (now-Some IsRetiring s.place i has_committed tt);
  own_kept = λ g v e f. inr (now-Some IsRetiring s.place i has_committed tt);
  generation_kept = inv.generation_drawn;
  pages_drawn_kept = inv.pages_drawn;
  more_drawn = omega arith;
  own_drawn = λ g u. absurd u;
}

Uses-at :
    (s : World) (i g : ℕ) (p : Place) → s.place i ≡ p → Invariant s → Uses g p → g < s.lists.drawn
Uses-at s i g p at inv u = inv.used_drawn i g (subst (Uses g) (sym at) u)

Keeps-Move :
    (s : World) (i : ℕ) (m' : Lists) (p p' : Place)
    → s.place i ≡ p
    → Move s.lists p m' p'
    → Invariant s
    → Keeps s i m' p'
Keeps-Move s i m' p p' at (reads_generation g e) inv =
    steps s i p p' at inv (λ x. x) (λ h v f. cc)
      (λ h u. subst (λ k. k < s.lists.drawn) (sym u) (inv.generation_drawn g e))
Keeps-Move s i m' p p' at (makes_generation e) inv = renews s i p' inv (λ g v f. cc) (λ g u. u)
Keeps-Move s i m' p p' at (finds_page g v e) inv =
    steps s i p p' at inv (λ x. x) (λ h w f. cc) (λ h u. absurd u)
Keeps-Move s i m' p p' at (misses_page_now g) inv =
    steps s i p p' at inv (λ x. x) (λ h w f. cc) (λ h u. Uses-at s i h p at inv u)
Keeps-Move s i m' p p' at (reads_table g) inv =
    steps s i p p' at inv (λ x. x) (λ h w f. cc) (λ h u. Uses-at s i h p at inv u)
Keeps-Move s i m' p p' at (list_fails g) inv =
    steps s i p p' at inv (λ x. x) (λ h w f. cc) (λ h u. absurd u)
Keeps-Move s i m' p p' at (stores_page g v) inv = stores-Keeps s i g v at inv
Keeps-Move s i m' p p' at (store_fails g v) inv =
    steps s i p p' at inv (λ x. x) (λ h w f. cc) (λ h u. absurd u)
Keeps-Move s i m' p p' at commits inv = commits-Keeps s i inv
Keeps-Move s i m' p p' at retires_lists inv = renews s i p' inv (λ g v f. cc) (λ g u. absurd u)

Invariant-Move :
    (s : World) (i : ℕ) (m' : Lists) (p' : Place)
    → Move s.lists (s.place i) m' p'
    → Invariant s
    → Invariant (after s i m' p')
Invariant-Move s i m' p' move inv =
    let keeps = Keeps-Move s i m' (s.place i) p' refl move inv in
    record {
      pages_current = keeps.pages_kept;
      held_current =
          by_client
            (λ j q.
              (g v : ℕ) → m'.generation ≡ some g → q ≡ has_page g v → IsCurrent (after s i m' p') v)
            s.place i p' keeps.own_kept (λ j other g v e f. keeps.others_kept j g v e f);
      generation_drawn = keeps.generation_kept;
      pages_drawn = keeps.pages_drawn_kept;
      used_drawn =
          by_client (λ j q. (g : ℕ) → Uses g q → g < m'.drawn) s.place i p' keeps.own_drawn
            (λ j other g u.
              let low = inv.used_drawn j g u in let more = keeps.more_drawn in omega arith);
    }

Invariant-Reach : (s : World) → Reach s → Invariant s
Invariant-Reach s begins = record {
  pages_current = λ g v e f. cc;
  held_current = λ i g v e f. cc;
  generation_drawn = λ g e. cc;
  pages_drawn = λ g v f. cc;
  used_drawn = λ i g u. absurd u;
}
Invariant-Reach t (later {s = s} reach (moves i {m} {p} move)) =
    Invariant-Move s i m p move (Invariant-Reach s reach)
Invariant-Reach t (later {s = s} reach generation_expires) =
    let inv = Invariant-Reach s reach in
    record {
      pages_current = λ g v e f. cc;
      held_current = λ i g v e f. cc;
      generation_drawn = λ g e. cc;
      pages_drawn = inv.pages_drawn;
      used_drawn = inv.used_drawn;
    }
Invariant-Reach t (later {s = s} reach (page_expires g)) =
    let inv = Invariant-Reach s reach in
    record {
      pages_current = λ h v e f. inv.pages_current h v e (put_none-some s.lists.pages g h v f);
      held_current = inv.held_current;
      generation_drawn = inv.generation_drawn;
      pages_drawn = λ h v f. inv.pages_drawn h v (put_none-some s.lists.pages g h v f);
      used_drawn = inv.used_drawn;
    }

-- However any number of clients interleave, and whichever keys expire, while Redis answers those that
-- write: a page under the current generation shows the current table, unless some client has committed
-- a write and has not yet replaced the generation.
pub page-IsCurrent :
    (g v : ℕ) (s : World)
    → Reach s
    → s.lists.generation ≡ some g
    → s.lists.pages g ≡ some v
    → IsCurrent s v
page-IsCurrent g v s reach e f = (Invariant-Reach s reach).pages_current g v e f
