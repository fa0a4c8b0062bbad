-- ===== src/Stack.antt =====
-- cmd/api/main.go: how run puts the parts together: the handlers over the service, over the decorator if
-- a Redis is configured, over the PostgreSQL adapter.
use graph_code_challenge.Postgres.Sequence.{KeepsIds}
use graph_code_challenge.Entity.{Task}
use graph_code_challenge.Cache.Coherence.{AreTokens}
use graph_code_challenge.Prelude.{String, List, ℕ, ℤ}
use graph_code_challenge.Redis.Laws.{IsUp, RedisLaws}
use graph_code_challenge.Cache.Base.{S, Db}
use graph_code_challenge.Handler.{Session, task_service, TaskService}
use graph_code_challenge.Handler.Traces.{Call, Follows, serve_all, serve_all-Follows}
use graph_code_challenge.Postgres.Refinement.{live_in, postgres_laws}
use graph_code_challenge.Postgres.Laws.{KeepsAnswers, PostgresLaws}
use graph_code_challenge.Postgres.{Pool}
use graph_code_challenge.Postgres.Adapter.{postgres}
use graph_code_challenge.Cache.Refinement.{cached_laws}
use graph_code_challenge.Redis.{Redis}
use graph_code_challenge.Cache.{cached}
use graph_code_challenge.Cache.Coherence.Sound.{IsSound}

-- The decorator that run puts over the adapter.
abbrev pub over_postgres : Pool → Redis → ℤ → (ℕ → String) → ℕ → Db
over_postgres pool conn ttl random count_retries = record {
  next = postgres pool;
  conn = conn;
  ttl = ttl;
  random = random;
  count_retries = count_retries;
}

-- The service that the handlers call, with Redis and without.
abbrev pub with_cache : Db → TaskService
with_cache d = task_service (cached d)

abbrev pub without_cache : Pool → TaskService
without_cache pool = task_service (postgres pool)

without_cache-Follows :
    (pool : Pool) (laws : PostgresLaws pool) (answers : KeepsAnswers pool laws) (calls : List Call)
    (s : Session (without_cache pool))
    → KeepsIds (laws.table s.store)
    → let outcome = serve_all (without_cache pool) calls s in
      Follows calls
        (live_in pool laws s.store)
        s.logged
        outcome.0
        (live_in pool laws outcome.1.store)
        outcome.1.logged
unfolding postgres_laws
without_cache-Follows pool laws answers calls s keeps =
    serve_all-Follows (postgres pool) (postgres_laws pool laws answers) calls s keeps

module _ (pool : Pool) (laws : PostgresLaws pool) (answers : KeepsAnswers pool laws) (conn : Redis)
    (redis_laws : RedisLaws conn) (ttl : ℤ) (random : ℕ → String) (count_retries : ℕ) where
  abbrev pub stack : Db
  stack = over_postgres pool conn ttl random count_retries

  -- The rows that the database holds live.
  abbrev pub live_rows : S stack → List Task
  live_rows s = live_in pool laws s.below

  abbrev pub IsServing : S stack → Type 0
  IsServing s = IsSound stack (postgres_laws pool laws answers) redis_laws s

  -- The handlers over the service, the cache and the PostgreSQL adapter, with Redis up: requests to
  -- the five routes, one after the other and with no other client, are each replied to as the table
  -- of the live rows says, invalid ones included, and the rows then are what that table becomes; or
  -- the reply is status 500, its error is logged and the live rows are as they were. The id of a
  -- creation is one that no live task has, unless the creation left the rows. PostgreSQL and Redis
  -- do as they document; further, no answer of PostgreSQL is lost once it has carried out a
  -- statement, the cache agrees with the rows at first, and tokens are not repeated.
  pub with_cache-Follows :
      AreTokens random
      → IsUp conn
      → (calls : List Call) (s : Session (with_cache stack)) → IsServing s.store
      → let outcome = serve_all (with_cache stack) calls s in
        Follows calls
          (live_rows s.store)
          s.logged
          outcome.0
          (live_rows outcome.1.store)
          outcome.1.logged
  unfolding cached_laws postgres_laws
  with_cache-Follows tokens up calls s sound =
      serve_all-Follows (cached stack)
        (cached_laws stack (postgres_laws pool laws answers) redis_laws tokens up) calls s sound
