-- ===== src/Cache/Evictions.antt =====
-- internal/repository/redis/redistask/task.go: any number of clients that read one task, and that update
-- or delete it, interleaved in any order: the commands of `GetByID` and `evict`, one step each. The task
-- is its version, which every committed write raises.
use graph_code_challenge.Prelude.{◌≡◌, suc, some, none, ℕ, Option}
use graph_code_challenge.Cache.Clients.{set_at}

pub data Spot : Type 0 where
  outside has_missed must_evict : Spot
  has_read : ℕ → Spot

pub record CachedTask : Type 0 where
  pub version : ℕ
  pub entry : Option ℕ

pub data Move (m : CachedTask) : Spot → CachedTask → Spot → Type 0 where
  finds_task : (v : ℕ) → m.entry ≡ some v → Move m outside m outside
  misses_task : m.entry ≡ none → Move m outside m has_missed
  reads_task : Move m has_missed m (has_read m.version)
  stores_task : (v : ℕ) → Move m (has_read v) (record m { entry = some v }) outside
  commits_write : Move m outside (record m { version = suc m.version }) must_evict
  evicts_task : Move m must_evict (record m { entry = none }) outside

pub record Clients : Type 0 where
  pub shared : CachedTask
  pub spot : ℕ → Spot

pub data Reach : Clients → Type 0 where
  begins : Reach (record { shared = record { version = 0; entry = none }; spot = λ i. outside })
  later :
      {s : Clients} (i : ℕ) {m : CachedTask} {p : Spot}
      → Reach s
      → Move s.shared (s.spot i) m p
      → Reach (record { shared = m; spot = set_at s.spot i p })
