-- ===== src/Cache/Interleaved.antt =====
-- internal/repository/redis/redistask/task.go: any number of clients that count the tasks, and that
-- create or delete some, interleaved in any order: the commands of `Count` and `invalidateCount`,
-- one step each, which may fail; one that takes the lock may have been carried out all the same. A
-- client's token is its number. The lock does not expire while its owner works under it, but may
-- before its owner releases it, and after an owner has failed to; the cached count may expire or be
-- evicted at any time.
pub mod Moves
pub mod Fresh
use graph_code_challenge.Cache.Clients.{set_at}
use graph_code_challenge.Prelude.{false, true, eqb, if◌then◌else◌, ◌≡◌, some, none, ℕ, Option, Bool}

-- Where a client stands. `wants_to_count` has missed the cached count, `rechecks` holds the lock,
-- `asks_store` has missed again, `has_counted` has the answer of PostgreSQL; `has_written` has
-- committed a creation or a deletion, `invalidates` holds the lock; `releases` is about to release it.
pub data Pc : Type 0 where
  idle wants_to_count rechecks asks_store : Pc
  has_counted : ℕ → Pc
  has_written invalidates releases : Pc

-- `live` is the number of live tasks in PostgreSQL. `missed` notes that a writer has failed to delete
-- the cached count, and that none has deleted it since.
pub record Shared : Type 0 where
  pub live : ℕ
  pub cached : Option ℕ
  pub lock : Option ℕ
  pub missed : Bool

-- The script that releases the lock: only the owner's token does.
abbrev pub release_by : ℕ → Option ℕ → Option ℕ
release_by i none = none
release_by i (some j) = if eqb i j then none else some j

-- A step of client `i`.
pub data Move (i : ℕ) (m : Shared) : Pc → Shared → Pc → Type 0 where
  hits : (n : ℕ) → m.cached ≡ some n → Move i m idle m idle
  misses : m.cached ≡ none → Move i m idle m wants_to_count
  gives_up : Move i m wants_to_count m idle
  locks_to_count : m.lock ≡ none → Move i m wants_to_count (record m { lock = some i }) rechecks
  lock_unanswered : m.lock ≡ none → Move i m wants_to_count (record m { lock = some i }) idle
  hits_again : (n : ℕ) → m.cached ≡ some n → Move i m rechecks m releases
  misses_again : m.cached ≡ none → Move i m rechecks m asks_store
  recheck_fails : Move i m rechecks m releases
  counts_live : Move i m asks_store m (has_counted m.live)
  count_fails : Move i m asks_store m releases
  stores_count : (n : ℕ) → Move i m (has_counted n) (record m { cached = some n }) releases
  store_fails : (n : ℕ) → Move i m (has_counted n) m releases
  writes : (n : ℕ) → Move i m idle (record m { live = n }) has_written
  locks_to_invalidate :
      m.lock ≡ none → Move i m has_written (record m { lock = some i }) invalidates
  -- At `countInvalidationLimit`, or when Redis does not answer.
  gives_up_writing : Move i m has_written (record m { missed = true }) idle
  lock_unanswered_writing :
      m.lock ≡ none → Move i m has_written (record m { lock = some i; missed = true }) idle
  deletes_count : Move i m invalidates (record m { cached = none; missed = false }) releases
  delete_fails : Move i m invalidates (record m { missed = true }) releases
  releases_lock : Move i m releases (record m { lock = release_by i m.lock }) idle
  release_fails : Move i m releases m idle

-- Under the lock, before the command that it is for.
abbrev pub IsWorking : Pc → Type 0
IsWorking rechecks = Unit
IsWorking asks_store = Unit
IsWorking (has_counted n) = Unit
IsWorking invalidates = Unit
IsWorking _ = ⊥

pub record System : Type 0 where
  pub mem : Shared
  pub pc : ℕ → Pc

pub data Step (s : System) : System → Type 0 where
  moves :
      (i : ℕ) {m : Shared} {p : Pc}
      → Move i s.mem (s.pc i) m p
      → Step s (record { mem = m; pc = set_at s.pc i p })
  expires : Step s (record s { mem = record s.mem { cached = none } })
  lock_expires :
      (i : ℕ)
      → s.mem.lock ≡ some i
      → ¬ IsWorking (s.pc i)
      → Step s (record s { mem = record s.mem { lock = none } })

abbrev pub start : ℕ → System
start live = record {
  mem = record { live = live; cached = none; lock = none; missed = false };
  pc = λ i. idle;
}

pub data Reach (live : ℕ) : System → Type 0 where
  begins : Reach live (start live)
  later : {s t : System} → Reach live s → Step s t → Reach live t
