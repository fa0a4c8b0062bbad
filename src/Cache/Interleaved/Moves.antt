-- ===== src/Cache/Interleaved/Moves.antt =====
-- What one step of a client does to the lock, and to what other clients may rely on.
use graph_code_challenge.Prelude.{arith, ◌≡◌, eqb, refl, false, some, ℕ}
use graph_code_challenge.Cache.Interleaved.{
  Pc, has_written, invalidates, Shared, Move, hits, misses, gives_up, locks_to_count, hits_again,
  misses_again, recheck_fails, counts_live, count_fails, stores_count, store_fails, writes,
  locks_to_invalidate, deletes_count, releases_lock, lock_unanswered, lock_unanswered_writing,
  gives_up_writing, delete_fails, release_fails, IsWorking,
}

-- Between committing a write and deleting the cached count.
abbrev pub IsPending : Pc → Type 0
IsPending has_written = Unit
IsPending invalidates = Unit
IsPending _ = ⊥

-- A client that works under the lock holds the lock.
abbrev pub Holds : ℕ → Shared → Pc → Type 0
Holds i m p = IsWorking p → m.lock ≡ some i

pub Holds-Move :
    (i : ℕ) (m m' : Shared) (p p' : Pc) → Move i m p m' p' → Holds i m p → Holds i m' p'
Holds-Move i m m' p p' (hits n e) h = λ x. absurd x
Holds-Move i m m' p p' (misses e) h = λ x. absurd x
Holds-Move i m m' p p' gives_up h = λ x. absurd x
Holds-Move i m m' p p' (locks_to_count e) h = λ x. refl
Holds-Move i m m' p p' (lock_unanswered e) h = λ x. absurd x
Holds-Move i m m' p p' (lock_unanswered_writing e) h = λ x. absurd x
Holds-Move i m m' p p' (hits_again n e) h = λ x. absurd x
Holds-Move i m m' p p' (misses_again e) h = h
Holds-Move i m m' p p' recheck_fails h = λ x. absurd x
Holds-Move i m m' p p' counts_live h = h
Holds-Move i m m' p p' count_fails h = λ x. absurd x
Holds-Move i m m' p p' (stores_count n) h = λ x. absurd x
Holds-Move i m m' p p' (store_fails n) h = λ x. absurd x
Holds-Move i m m' p p' (writes n) h = λ x. absurd x
Holds-Move i m m' p p' (locks_to_invalidate e) h = λ x. refl
Holds-Move i m m' p p' deletes_count h = λ x. absurd x
Holds-Move i m m' p p' gives_up_writing h = λ x. absurd x
Holds-Move i m m' p p' delete_fails h = λ x. absurd x
Holds-Move i m m' p p' release_fails h = λ x. absurd x
Holds-Move i m m' p p' releases_lock h = λ x. absurd x

-- Another client keeps the lock that it holds.
pub lock-Move :
    (i j : ℕ) (m m' : Shared) (p p' : Pc)
    → Move i m p m' p'
    → Holds i m p
    → eqb i j ≡ false
    → m.lock ≡ some j
    → m'.lock ≡ some j
lock-Move i j m m' p p' (hits n e) h other held = held
lock-Move i j m m' p p' (misses e) h other held = held
lock-Move i j m m' p p' gives_up h other held = held
lock-Move i j m m' p p' (locks_to_count e) h other held = absurd (ground arith)
lock-Move i j m m' p p' (lock_unanswered e) h other held = absurd (ground arith)
lock-Move i j m m' p p' (lock_unanswered_writing e) h other held = absurd (ground arith)
lock-Move i j m m' p p' (hits_again n e) h other held = held
lock-Move i j m m' p p' (misses_again e) h other held = held
lock-Move i j m m' p p' recheck_fails h other held = held
lock-Move i j m m' p p' counts_live h other held = held
lock-Move i j m m' p p' count_fails h other held = held
lock-Move i j m m' p p' (stores_count n) h other held = held
lock-Move i j m m' p p' (store_fails n) h other held = held
lock-Move i j m m' p p' (writes n) h other held = held
lock-Move i j m m' p p' (locks_to_invalidate e) h other held = absurd (ground arith)
lock-Move i j m m' p p' deletes_count h other held = held
lock-Move i j m m' p p' gives_up_writing h other held = held
lock-Move i j m m' p p' delete_fails h other held = held
lock-Move i j m m' p p' release_fails h other held = held
lock-Move i j m m' p p' releases_lock h other held = ground arith
