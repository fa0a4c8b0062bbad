-- ===== src/Cache.antt =====
-- internal/repository/redis/redistask/task.go: the cache-aside decorator of a repository.
pub mod Clients
pub mod Interleaved
pub mod Evictions
pub mod Generations
pub mod Keys
pub mod Base
pub mod Count
pub mod Transparent
pub mod Outage
pub mod Effects
pub mod Coherence
pub mod Refinement
use graph_code_challenge.Prelude.{
  ◌∷◌, divide_int64, ◌++◌, ◌==◌, max_ℤ, format_int, ◌*◌, if◌then◌else◌, scale_int64, ◌+◌, Option,
  String, List, ℕ, ℤ, suc, zero, false, true, some, none, pos, [],
}
use graph_code_challenge.Errors.{
  sentinel, Error, is, redis_nil, deadline_exceeded, Result, ok, err, plain,
}
use graph_code_challenge.Entity.{Task}
use graph_code_challenge.Param.{ListTasksRequest, UpdateTaskRequest}
use graph_code_challenge.Repository.{Repository}
use graph_code_challenge.Json.{Json, encode_task, decode_task, encode_tasks, decode_tasks}
use graph_code_challenge.Redis.{
  set, Redis, Command, Value, Reply, get, set_nx, del, eval, text, json, release_count_lock_script,
  list_generation_script, get_result, bool_result, text_result,
}
use graph_code_challenge.Strconv
use graph_code_challenge.Strconv.{Parsed, parse_int}
use graph_code_challenge.Cache.Keys.{task_key, page_key, list_gen_key, count_key, count_lock_key}
use graph_code_challenge.Cache.Base.{
  marshal_task, marshal_tasks, Db, S, ask, call, draw, warn_failed, warn, loaded, load, store,
  evict, retire_lists, listed_key, list_key, generation_ttl_ms,
}
use graph_code_challenge.Cache.Count.{invalidate_count, count}

module _ (d : Db) where
  unfoldable pub create : Task → S d → Result Task × S d
  create task s =
      let (r, s1) = ask d (d.next.create task) s in
      elim r [
        | err e ↦ (err e, s1)
        | ok created ↦ (ok created, invalidate_count d (retire_lists d s1))
      ]

  -- `GetByID` after a miss.
  unfoldable pub get_missed : ℤ → S d → Result Task × S d
  get_missed id s =
      let (r, s1) = ask d (d.next.get_by_id id) s in
      elim r [
        | err e ↦ (err e, s1)
        | ok task ↦ (ok task, store d (task_key id) (marshal_task task) s1)
      ]

  unfoldable pub get_by_id : ℤ → S d → Result Task × S d
  get_by_id id s =
      let (cached, s1) = load d decode_task (task_key id) s in
      elim cached [ some task ↦ (ok task, s1) | none ↦ get_missed id s1 ]

  -- `List` after a miss.
  unfoldable pub list_missed : String → ListTasksRequest → S d → Result (List Task) × S d
  list_missed key req s =
      let (r, s1) = ask d (d.next.list req) s in
      elim r [
        | err e ↦ (err e, s1)
        | ok tasks ↦ (ok tasks, if key == "" then s1 else store d key (marshal_tasks tasks) s1)
      ]

  unfoldable pub list_at : String → ListTasksRequest → S d → Result (List Task) × S d
  list_at key req s =
      let hit = load d decode_tasks key s in
      if key == ""
      then list_missed key req s
      else elim hit.0 [ some tasks ↦ (ok tasks, hit.1) | none ↦ list_missed key req hit.1 ]

  unfoldable pub list : ListTasksRequest → S d → Result (List Task) × S d
  list req s = let (key, s1) = list_key d req s in list_at key req s1

  unfoldable pub update : UpdateTaskRequest → S d → Result Task × S d
  update req s =
      let (r, s1) = ask d (d.next.update req) s in
      elim r [ err e ↦ (err e, s1) | ok updated ↦ (ok updated, retire_lists d (evict d req.id s1)) ]

  unfoldable pub delete : ℤ → S d → Result (Unit {0}) × S d
  delete id s =
      let (r, s1) = ask d (d.next.delete id) s in
      elim r [
        | err e ↦ (err e, s1)
        | ok _ ↦ (ok tt, invalidate_count d (retire_lists d (evict d id s1)))
      ]

  -- The decorator is a repository.
  abbrev pub cached : Repository
  cached = record {
    State = S d;
    create = create;
    get_by_id = get_by_id;
    list = list;
    update = update;
    delete = delete;
    count = count d;
  }
