-- ===== src/Tests/Connections.antt =====
-- A start of the program at which Redis does not answer.
use graph_code_challenge.Startup.Closes.{startup-IsBalanced}
use graph_code_challenge.Startup
use graph_code_challenge.Config.{Config}
use graph_code_challenge.Errors.{plain, wrapped, err, ok, Error}
use graph_code_challenge.Resources.{IsBalanced, acquired, released, postgres_pool, redis_client}
use graph_code_challenge.Startup.{Libraries, run, health_url, health_exit}
use graph_code_challenge.Prelude.{
  ◌==◌, if◌then◌else◌, ◌∷◌, ◌≡◌, sprintf, refl, pos, false, some, none, [], Bool, Option,
}

abbrev no_redis : Libraries
no_redis = record {
  parse_dsn = λ dsn. none;
  create_pool = λ dsn settings. none;
  ping_pool = λ dsn. none;
  parse_url = λ url. none;
  ping_redis = λ url. some (plain "dial tcp: connection refused");
}

abbrev with_cache : Config
with_cache = record {
  app_mode = "production";
  http_port = pos 8080;
  database_url = "postgres://db";
  redis_url = "redis://cache";
  redis_ttl = pos 60000000000;
  pprof_enabled = false;
  pprof_port = pos 6060;
}

abbrev never_serves : Config → Bool → Option Error
never_serves cfg cached = none

startup_test : run no_redis never_serves (ok with_cache) [] ≡ (
  some (wrapped "redis: connect: " (plain "dial tcp: connection refused")),
  acquired postgres_pool
      ∷ acquired redis_client
      ∷ released redis_client
      ∷ released postgres_pool
      ∷ [],
)
unfolding run Startup.connect_postgres Startup.connect_redis
startup_test = refl

startup-IsBalanced_example : IsBalanced (run no_redis never_serves (ok with_cache) []).1
startup-IsBalanced_example = startup-IsBalanced no_redis never_serves (ok with_cache)

health_tests :
    (health_url (λ key. if key == "HTTP_PORT" then "9090" else "")
      ≡ "http://127.0.0.1:9090/healthz")
    × (health_exit (ok 200) ≡ 0)
    × (health_exit (ok 503) ≡ 1)
    × (health_exit (err (plain "refused")) ≡ 1)
unfolding health_url health_exit sprintf
health_tests = (refl, refl, refl, refl)
