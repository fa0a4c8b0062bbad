-- ===== src/Cache/Interleaved/Fresh.antt =====
-- The cached count is the number of live tasks, but for writes whose invalidation is under way.
use graph_code_challenge.Cache.Clients.{keeps-Some, by_client, Some, set_at, now-Some}
use graph_code_challenge.Prelude.{
  true, ◌∙◌, refl, sym, arith, ◌⊎◌, subst, ◌≡◌, eqb, inr, inl, false, some, ℕ,
}
use graph_code_challenge.Cache.Interleaved.{
  Move, Pc, Reach, Shared, System, begins, count_fails, counts_live, deletes_count, expires,
  gives_up, has_counted, has_written, hits, hits_again, later, locks_to_count, locks_to_invalidate,
  gives_up_writing, lock_unanswered, lock_unanswered_writing, delete_fails, release_fails,
  lock_expires, IsWorking, misses, misses_again, moves, recheck_fails, releases_lock, store_fails,
  stores_count, writes,
}
use graph_code_challenge.Cache.Interleaved.Moves.{lock-Move, Holds-Move, IsPending, Holds}

-- Some client has committed a write and has not yet deleted the cached count.
abbrev pub Pending : (ℕ → Pc) → Type 0
Pending pc = Some IsPending pc

-- A count is that of the live tasks, or an invalidation is still to come, or one has failed and none has
-- succeeded since.
abbrev pub IsFresh : System → ℕ → Type 0
IsFresh s n = (n ≡ s.mem.live) ⊎ (Pending s.pc ⊎ (s.mem.missed ≡ true))

record Invariant (s : System) : Type 0 where
  holds : (i : ℕ) → Holds i s.mem (s.pc i)
  cached : (n : ℕ) → s.mem.cached ≡ some n → IsFresh s n
  counted : (i n : ℕ) → s.pc i ≡ has_counted n → IsFresh s n

-- Two clients are not works at once.
not_both :
    (m : Shared) (i j : ℕ) (p q : Pc)
    → Holds i m p
    → Holds j m q
    → eqb i j ≡ false
    → IsWorking p
    → IsWorking q
    → ⊥
not_both m i j p q h k other works works' = let mine = h works in let its = k works' in ground arith

has_counted-IsWorking : (p : Pc) (n : ℕ) → p ≡ has_counted n → IsWorking p
has_counted-IsWorking p n e = subst IsWorking (sym e) tt

-- The system after client `i` has moved.
abbrev after : System → ℕ → Shared → Pc → System
after s i m p = record { mem = m; pc = set_at s.pc i p }

carry :
    (s : System) (i : ℕ) (m : Shared) (p' : Pc) (n : ℕ)
    → m.live ≡ s.mem.live
    → (s.mem.missed ≡ true → m.missed ≡ true)
    → (IsPending (s.pc i) → IsPending p')
    → IsFresh s n
    → IsFresh (after s i m p') n
carry s i m p' n same known still (inl e) = inl (e ∙ sym same)
carry s i m p' n same known still (inr (inl pending)) =
    inr (inl (keeps-Some IsPending s.pc i p' still pending))
carry s i m p' n same known still (inr (inr missed)) = inr (inr (known missed))

-- What a move leaves of the invariant on counts: of the cached one, of those that the other clients
-- hold, and of its own.
record Keeps (s : System) (i : ℕ) (m : Shared) (p : Pc) : Type 0 where
  cached_kept : (n : ℕ) → m.cached ≡ some n → IsFresh (after s i m p) n
  others_kept : (j n : ℕ) → eqb i j ≡ false → s.pc j ≡ has_counted n → IsFresh (after s i m p) n
  own_kept : (n : ℕ) → p ≡ has_counted n → IsFresh (after s i m p) n

-- A move that keeps the counts, the tasks and what is pending.
quiet :
    (s : System) (i : ℕ) (m : Shared) (p' : Pc)
    → Invariant s
    → m.live ≡ s.mem.live
    → m.cached ≡ s.mem.cached
    → (s.mem.missed ≡ true → m.missed ≡ true)
    → (IsPending (s.pc i) → IsPending p')
    → ((n : ℕ) → p' ≡ has_counted n → n ≡ m.live)
    → Keeps s i m p'
quiet s i m p' inv live same known still own = record {
  cached_kept = λ n e. carry s i m p' n live known still (inv.cached n (sym same ∙ e));
  others_kept = λ j n other e. carry s i m p' n live known still (inv.counted j n e);
  own_kept = λ n e. inl (own n e);
}

-- The same, from a place where nothing is pending.
calm :
    (s : System) (i : ℕ) (m : Shared) (p p' : Pc)
    → s.pc i ≡ p
    → Invariant s
    → m.live ≡ s.mem.live
    → m.cached ≡ s.mem.cached
    → (s.mem.missed ≡ true → m.missed ≡ true)
    → (IsPending p → ⊥)
    → ((n : ℕ) → p' ≡ has_counted n → n ≡ m.live)
    → Keeps s i m p'
calm s i m p p' at inv live same known settled own =
    quiet s i m p' inv live same known (λ pending. absurd (settled (subst IsPending at pending)))
      own

Keeps-Move :
    (s : System) (i : ℕ) (m' : Shared) (p p' : Pc)
    → s.pc i ≡ p
    → Move i s.mem p m' p'
    → Invariant s
    → Keeps s i m' p'
Keeps-Move s i m' p p' at (hits n e) inv =
    calm s i m' p p' at inv refl refl (λ x. x) (λ x. x) (λ k h. cc)
Keeps-Move s i m' p p' at (misses e) inv =
    calm s i m' p p' at inv refl refl (λ x. x) (λ x. x) (λ k h. cc)
Keeps-Move s i m' p p' at gives_up inv =
    calm s i m' p p' at inv refl refl (λ x. x) (λ x. x) (λ k h. cc)
Keeps-Move s i m' p p' at (locks_to_count e) inv =
    calm s i m' p p' at inv refl refl (λ x. x) (λ x. x) (λ k h. cc)
Keeps-Move s i m' p p' at (hits_again n e) inv =
    calm s i m' p p' at inv refl refl (λ x. x) (λ x. x) (λ k h. cc)
Keeps-Move s i m' p p' at (misses_again e) inv =
    calm s i m' p p' at inv refl refl (λ x. x) (λ x. x) (λ k h. cc)
Keeps-Move s i m' p p' at recheck_fails inv =
    calm s i m' p p' at inv refl refl (λ x. x) (λ x. x) (λ k h. cc)
Keeps-Move s i m' p p' at counts_live inv =
    calm s i m' p p' at inv refl refl (λ x. x) (λ x. x) (λ k h. cc)
Keeps-Move s i m' p p' at count_fails inv =
    calm s i m' p p' at inv refl refl (λ x. x) (λ x. x) (λ k h. cc)
Keeps-Move s i m' p p' at (store_fails n) inv =
    calm s i m' p p' at inv refl refl (λ x. x) (λ x. x) (λ k h. cc)
Keeps-Move s i m' p p' at releases_lock inv =
    calm s i m' p p' at inv refl refl (λ x. x) (λ x. x) (λ k h. cc)
Keeps-Move s i m' p p' at (locks_to_invalidate e) inv =
    quiet s i m' p' inv refl refl (λ x. x) (λ x. tt) (λ k h. cc)
Keeps-Move s i m' p p' at (stores_count n) inv =
    let none_here = subst (λ q. IsPending q → ⊥) (sym at) (λ x. x) in
    record {
      cached_kept = λ k e.
          subst (IsFresh (after s i m' p')) (ground arith)
            (carry s i m' p' n refl (λ x. x) none_here (inv.counted i n at));
      others_kept = λ j k other e. carry s i m' p' k refl (λ x. x) none_here (inv.counted j k e);
      own_kept = λ k e. cc;
    }
Keeps-Move s i m' p p' at (writes n) inv = record {
  cached_kept = λ k e. inr (inl (now-Some IsPending s.pc i has_written tt));
  others_kept = λ j k other e. inr (inl (now-Some IsPending s.pc i has_written tt));
  own_kept = λ k e. inr (inl (now-Some IsPending s.pc i has_written tt));
}
Keeps-Move s i m' p p' at release_fails inv =
    calm s i m' p p' at inv refl refl (λ x. x) (λ x. x) (λ k h. cc)
Keeps-Move s i m' p p' at (lock_unanswered e) inv =
    calm s i m' p p' at inv refl refl (λ x. x) (λ x. x) (λ k h. cc)
Keeps-Move s i m' p p' at (lock_unanswered_writing e) inv = record {
  cached_kept = λ k e. inr (inr refl);
  others_kept = λ j k other e. inr (inr refl);
  own_kept = λ k e. inr (inr refl);
}
Keeps-Move s i m' p p' at gives_up_writing inv = record {
  cached_kept = λ k e. inr (inr refl);
  others_kept = λ j k other e. inr (inr refl);
  own_kept = λ k e. inr (inr refl);
}
Keeps-Move s i m' p p' at delete_fails inv = record {
  cached_kept = λ k e. inr (inr refl);
  others_kept = λ j k other e. inr (inr refl);
  own_kept = λ k e. inr (inr refl);
}
Keeps-Move s i m' p p' at deletes_count inv = record {
  cached_kept = λ k e. cc;
  others_kept = λ j k other e. absurd (
      not_both s.mem i j (s.pc i) (s.pc j) (inv.holds i) (inv.holds j) other
        (subst IsWorking (sym at) tt) (has_counted-IsWorking (s.pc j) k e));
  own_kept = λ k e. cc;
}

Invariant-Move :
    (s : System) (i : ℕ) (m' : Shared) (p' : Pc)
    → Move i s.mem (s.pc i) m' p'
    → Invariant s
    → Invariant (after s i m' p')
Invariant-Move s i m' p' move inv =
    let keeps = Keeps-Move s i m' (s.pc i) p' refl move inv in
    record {
      holds =
          by_client (λ j q. Holds j m' q) s.pc i p'
            (Holds-Move i s.mem m' (s.pc i) p' move (inv.holds i))
            (λ j other works.
              lock-Move i j s.mem m' (s.pc i) p' move (inv.holds i) other (inv.holds j works));
      cached = keeps.cached_kept;
      counted =
          by_client (λ j q. (n : ℕ) → q ≡ has_counted n → IsFresh (after s i m' p') n) s.pc i p'
            keeps.own_kept (λ j other n e. keeps.others_kept j n other e);
    }

Invariant-Reach : (live : ℕ) (s : System) → Reach live s → Invariant s
Invariant-Reach live s begins = record {
  holds = λ i works. absurd works;
  cached = λ n e. cc;
  counted = λ i n e. cc;
}
Invariant-Reach live t (later {s = s} reach (moves i {m} {p} move)) =
    Invariant-Move s i m p move (Invariant-Reach live s reach)
Invariant-Reach live t (later {s = s} reach expires) =
    let inv = Invariant-Reach live s reach in
    record { holds = inv.holds; cached = λ n e. cc; counted = inv.counted }
Invariant-Reach live t (later {s = s} reach (lock_expires i held idle_owner)) =
    let inv = Invariant-Reach live s reach in
    record {
      holds = λ j works.
          let its = inv.holds j works in
          let same : j ≡ i = cc in absurd (idle_owner (subst (λ k. IsWorking (s.pc k)) same works));
      cached = inv.cached;
      counted = inv.counted;
    }

-- However any number of clients interleave, and whichever commands fail, while no lock expires as
-- its owner works under it: a count that is cached is the number of live tasks, unless some client
-- has committed a creation or a deletion and has not yet deleted the cached count, or one has given
-- up deleting it and none has deleted it since.
pub cached-IsFresh : (live n : ℕ) (s : System) → Reach live s → s.mem.cached ≡ some n → IsFresh s n
cached-IsFresh live n s reach e = (Invariant-Reach live s reach).cached n e
