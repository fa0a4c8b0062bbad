-- ===== src/Startup/Closes.antt =====
-- Every connection that the program opens is closed when `run` returns.
use graph_code_challenge.Prelude.{
  ◌==◌, Bool-cases, ◌∷◌, refl, inr, inl, some, none, [], Option, Bool,
}
use graph_code_challenge.Errors.{err, ok, Error, Result}
use graph_code_challenge.Config.{Config}
use graph_code_challenge.Resources.{acquired, released, postgres_pool, IsBalanced}
use graph_code_challenge.Startup.{
  pool_settings, then_release, Libraries, run, connect_postgres, connect_redis, parsed_dsn,
  parsed_url, with_postgres, with_redis, choose_repository,
}

module _ (libs : Libraries) (serve_all : Config → Bool → Option Error) where
  url-IsBalanced :
      (cfg : Config) (url ping : Option Error)
      → IsBalanced
          (then_release libs (released postgres_pool) (
            with_redis libs serve_all cfg
              (parsed_url libs url ping (acquired postgres_pool ∷ [])))).1
  url-IsBalanced cfg (some e) ping = refl
  url-IsBalanced cfg none (some e) = refl
  url-IsBalanced cfg none none = refl

  repository-IsBalanced :
      (cfg : Config)
      → IsBalanced
          (then_release libs
            (released postgres_pool)
            (choose_repository libs serve_all cfg (acquired postgres_pool ∷ []))).1
  unfolding connect_redis
  repository-IsBalanced cfg = elim (Bool-cases (cfg.redis_url == "")) [
    | inl without ↦ rw without refl
    | inr given ↦
        rw given (url-IsBalanced cfg (libs.parse_url cfg.redis_url) (libs.ping_redis cfg.redis_url))
  ]

  dsn-IsBalanced :
      (cfg : Config) (dsn pool ping : Option Error)
      → IsBalanced (with_postgres libs serve_all cfg (parsed_dsn libs dsn pool ping [])).1
  dsn-IsBalanced cfg (some e) pool ping = refl
  dsn-IsBalanced cfg none (some e) ping = refl
  dsn-IsBalanced cfg none none (some e) = refl
  dsn-IsBalanced cfg none none none = repository-IsBalanced cfg

  -- However `run` goes, whatever fails while it connects or serves: the pool of PostgreSQL and the
  -- client of Redis are each closed once if they were opened, and not otherwise, and the one that was
  -- opened last is closed first.
  pub startup-IsBalanced : (loaded : Result Config) → IsBalanced (run libs serve_all loaded []).1
  unfolding run connect_postgres
  startup-IsBalanced (err e) = refl
  startup-IsBalanced (ok cfg) =
      dsn-IsBalanced cfg (libs.parse_dsn cfg.database_url)
        (libs.create_pool cfg.database_url pool_settings) (libs.ping_pool cfg.database_url)
