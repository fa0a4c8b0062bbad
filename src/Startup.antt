-- ===== src/Startup.antt =====
-- The connections of the program: `New` of internal/repository/postgres/postgres.go and of
-- internal/repository/redis/redis.go, the part of `run` of cmd/api/main.go that opens them, and closes
-- them by `defer`, and cmd/healthcheck/main.go. What pgx, go-redis and net/http answer is a parameter.
pub mod Closes
use graph_code_challenge.Prelude.{
  eqb, ◌∷◌, not, ◌==◌, if◌then◌else◌, ◌++◌, sprintf, false, true, some, none, [], List, Option,
  String, Bool, ℕ,
}
use graph_code_challenge.Errors.{wrapped, err, ok, Error, Result}
use graph_code_challenge.Config.{Config}
use graph_code_challenge.Resources.{Call, acquired, released, postgres_pool, redis_client}

-- Durations are in nanoseconds.
pub record PoolSettings : Type 0 where
  pub max_conns : ℕ
  pub min_conns : ℕ
  pub max_conn_lifetime : ℕ
  pub max_conn_idle_time : ℕ

abbrev pool_settings : PoolSettings
pool_settings = record {
  max_conns = 10;
  min_conns = 2;
  max_conn_lifetime = 3600000000000;
  max_conn_idle_time = 1800000000000;
}

pub record Libraries : Type 0 where
  pub parse_dsn : String → Option Error
  pub create_pool : String → PoolSettings → Option Error
  pub ping_pool : String → Option Error
  pub parse_url : String → Option Error
  pub ping_redis : String → Option Error

module _ (libs : Libraries) where
  abbrev pub pinged_pool : Option Error → List Call → Result (Unit {0}) × List Call
  pinged_pool (some e) calls =
      (err (wrapped "postgres: connect: " e), calls ++ (released postgres_pool ∷ []))
  pinged_pool none calls = (ok tt, calls)

  abbrev pub created_pool : Option Error → Option Error → List Call → Result (Unit {0}) × List Call
  created_pool (some e) ping calls = (err (wrapped "postgres: create pool: " e), calls)
  created_pool none ping calls = pinged_pool ping (calls ++ (acquired postgres_pool ∷ []))

  abbrev pub parsed_dsn :
      Option Error → Option Error → Option Error → List Call → Result (Unit {0}) × List Call
  parsed_dsn (some e) pool ping calls = (err (wrapped "postgres: parse dsn: " e), calls)
  parsed_dsn none pool ping calls = created_pool pool ping calls

  -- `postgres.New`
  unfoldable pub connect_postgres : String → List Call → Result (Unit {0}) × List Call
  connect_postgres dsn calls =
      parsed_dsn (libs.parse_dsn dsn) (libs.create_pool dsn pool_settings) (libs.ping_pool dsn)
        calls

  abbrev pub pinged_redis : Option Error → List Call → Result (Unit {0}) × List Call
  pinged_redis (some e) calls =
      (err (wrapped "redis: connect: " e), calls ++ (released redis_client ∷ []))
  pinged_redis none calls = (ok tt, calls)

  abbrev pub parsed_url : Option Error → Option Error → List Call → Result (Unit {0}) × List Call
  parsed_url (some e) ping calls = (err (wrapped "redis: parse url: " e), calls)
  parsed_url none ping calls = pinged_redis ping (calls ++ (acquired redis_client ∷ []))

  -- `redis.New`
  unfoldable pub connect_redis : String → List Call → Result (Unit {0}) × List Call
  connect_redis url calls = parsed_url (libs.parse_url url) (libs.ping_redis url) calls

  -- `defer c.Close()`
  abbrev pub then_release : Call → Option Error × List Call → Option Error × List Call
  then_release c (e, calls) = (e, calls ++ (c ∷ []))

  -- What is left of `run` once it is connected, with the cache or without it: its error.
  module _ (serve_all : Config → Bool → Option Error) where
    abbrev pub serve_with : Config → Bool → List Call → Option Error × List Call
    serve_with cfg cached calls = (serve_all cfg cached, calls)

    abbrev pub with_redis : Config → Result (Unit {0}) × List Call → Option Error × List Call
    with_redis cfg (err e, calls) = (some e, calls)
    with_redis cfg (ok _, calls) = then_release (released redis_client) (serve_with cfg true calls)

    abbrev pub choose_repository : Config → List Call → Option Error × List Call
    choose_repository cfg calls =
        if not (cfg.redis_url == "")
        then with_redis cfg (connect_redis cfg.redis_url calls)
        else serve_with cfg false calls

    abbrev pub with_postgres : Config → Result (Unit {0}) × List Call → Option Error × List Call
    with_postgres cfg (err e, calls) = (some e, calls)
    with_postgres cfg (ok _, calls) =
        then_release (released postgres_pool) (choose_repository cfg calls)

    -- `run`, by what `config.Load` gives.
    unfoldable pub run : Result Config → List Call → Option Error × List Call
    run (err e) calls = (some e, calls)
    run (ok cfg) calls = with_postgres cfg (connect_postgres cfg.database_url calls)

-- `main` of the health check: the status that it exits with, by the answer to its request.
unfoldable pub health_url : (String → String) → String
unfolding sprintf
health_url getenv =
    let port = if getenv "HTTP_PORT" == "" then "8080" else getenv "HTTP_PORT" in
    sprintf "http://127.0.0.1:%s/healthz" (port ∷ [])

unfoldable pub health_exit : Result ℕ → ℕ
health_exit (err e) = 1
health_exit (ok status) = if not (eqb status 200) then 1 else 0
