-- ===== src/Tests/Whole.antt =====
-- The whole program over the two servers of the tests.
use graph_code_challenge.Cache.Keys.{task_key}
use graph_code_challenge.Cache.Count.{
  release_count_lock, attempt, acquire_count_lock, invalidate_count,
}
use graph_code_challenge.Redis.{apply}
use graph_code_challenge.Param.{new_task_info}
use graph_code_challenge.Errors.{is}
use graph_code_challenge.Postgres.Execution.{execute}
use graph_code_challenge.Postgres.Texts.{render}
use graph_code_challenge.Postgres.Adapter.{delete_query}
use graph_code_challenge.Strconv.{parse_uint, parse_int}
use graph_code_challenge.Cache.Refinement.{empty-IsSound}
use graph_code_challenge.Postgres.Refinement.{postgres_laws}
use graph_code_challenge.Prelude.{
  format_int, ◌≡◌, eqb_ℤ, ltb_ℤ, sprintf, join, refl, ◌∷◌, decimal, List, pos, [],
}
use graph_code_challenge.Tests.Adapter.{stored, stored-KeepsIds}
use graph_code_challenge.Tests.Database.{database, database_laws, database-KeepsAnswers}
use graph_code_challenge.Tests.Handlers.{request}
use graph_code_challenge.Tests.Decorator.{
  decimal-AreTokens, empty-IsFree, server, server-IsUp, server_laws, empty,
}
use graph_code_challenge.Stack.{stack, with_cache, with_cache-Follows, live_rows, IsServing}
use graph_code_challenge.Handler.{
  msg_not_found, write_message, payload, parse_id, write_error, Session,
}
use graph_code_challenge.Handler.Traces.{
  to_get, to_delete, Call, Follows, serve_all, creating, deleting, getting, listing, updating,
}
use graph_code_challenge.Cache.Base.{evict, retire_lists, draw, call, load, Db, ask}
use graph_code_challenge.Handler
use graph_code_challenge.Service
use graph_code_challenge.Cache
use graph_code_challenge.Postgres.Adapter

abbrev whole : Db
whole =
    stack database database_laws database-KeepsAnswers server server_laws (pos 60000000000) decimal
      10

abbrev opened : Session (with_cache whole)
opened = record {
  store = record { below = stored; cache = empty; drawn = 0; log = [] };
  logged = [];
}

opened-IsServing :
    IsServing database database_laws database-KeepsAnswers server server_laws
      (pos 60000000000)
      decimal
      10
      opened.store
unfolding postgres_laws
opened-IsServing =
    empty-IsSound whole (postgres_laws database database_laws database-KeepsAnswers) server_laws
      decimal-AreTokens server-IsUp opened.store empty-IsFree stored-KeepsIds

abbrev calls : List Call
calls =
    getting request
    ∷ deleting request
    ∷ getting request
    ∷ creating request
    ∷ listing request
    ∷ updating request
    ∷ []

with_cache-Follows_example :
    let live =
      live_rows database database_laws database-KeepsAnswers server server_laws
        (pos 60000000000)
        decimal
        10 in
    let outcome = serve_all (with_cache whole) calls opened in
    Follows calls (live opened.store) [] outcome.0 (live outcome.1.store) outcome.1.logged
with_cache-Follows_example =
    with_cache-Follows database database_laws database-KeepsAnswers server server_laws
      (pos 60000000000) decimal 10 decimal-AreTokens server-IsUp calls opened opened-IsServing

-- The task is there, is deleted, and is gone.
deleted_is_gone :
    (serve_all (with_cache whole) (deleting request ∷ getting request ∷ []) opened).0
    ≡ to_delete (record { status = 204; body = payload tt })
      ∷ to_get (write_message 404 msg_not_found)
      ∷ []
unfolding Handler.get Handler.delete write_error parse_id parse_int parse_uint Service.get_by_id
    Service.delete Cache.get_by_id Cache.delete Cache.get_missed ask load call draw retire_lists
    evict Adapter.get_by_id Adapter.delete delete_query render execute decimal join sprintf ltb_ℤ
    eqb_ℤ is new_task_info apply invalidate_count acquire_count_lock attempt release_count_lock
    task_key format_int
deleted_is_gone = refl
