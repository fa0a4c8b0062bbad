-- ===== src/Cache/Refinement.antt =====
-- The decorator keeps the contract of the repository that it wraps, while Redis is up.
use graph_code_challenge.Cache.Coherence.Counts.{count-law}
use graph_code_challenge.Cache.Keys.{count_lock_key, list_gen_key, count_key, page_key, task_key}
use graph_code_challenge.Cache.Effects.{data_of}
use graph_code_challenge.Repository.Tasks.{delete_spec, update_spec, page, get_spec}
use graph_code_challenge.Cache.Coherence.Pages.{list-law}
use graph_code_challenge.Redis.Effects.{IsFree}
use graph_code_challenge.Cache.Coherence.Gets.{get_by_id-law}
use graph_code_challenge.Param.{ListTasksRequest, UpdateTaskRequest}
use graph_code_challenge.Entity.{Task}
use graph_code_challenge.Cache.Coherence.Writes.{
  delete-law, update-law, WritesSound, CreatesSound, create-law,
}
use graph_code_challenge.Cache.Coherence.{AreTokens}
use graph_code_challenge.Redis.Laws.{IsUp, RedisLaws}
use graph_code_challenge.Repository.Spec.{Implements}
use graph_code_challenge.Cache.Base.{S, Db}
use graph_code_challenge.Errors.{ok}
use graph_code_challenge.Prelude.{length, ◌≤ℤ◌, ℤ, pos}
use graph_code_challenge.Cache.{String, create, get_by_id, list, update, delete, cached}
use graph_code_challenge.Cache.Count.{count}
use graph_code_challenge.Cache.Coherence.Sound.{IsSound, table, Serves}

module _ (d : Db) (impl : Implements d.next) (laws : RedisLaws d.conn) (tokens : AreTokens d.random)
    (up : IsUp d.conn) where
  -- With Redis up, each read through the decorator answers as the table of the repository below does,
  -- or fails internally, from any state in which the cache agrees with that table; the table is as it
  -- was, and the cache still agrees with it. Keys may expire or be evicted before and after every
  -- command.
  pub reads_lem :
      (id : ℤ) (req : ListTasksRequest) (s : S d)
      → pos 0 ≤ℤ req.limit
      → IsSound d impl laws s
      → Serves d impl laws (get_spec id (table d impl laws s)) s (get_by_id d id s)
        × Serves d impl laws (ok (page req (table d impl laws s))) s (list d req s)
        × Serves d impl laws (ok (pos (length (table d impl laws s)))) s (count d s)
  reads_lem id req s limit sound = (
    get_by_id-law d impl laws up id s sound,
    list-law d impl laws tokens up req s limit sound,
    count-law d impl laws up s sound,
  )

  -- With Redis up, each write through the decorator does what the table's operation does, or fails
  -- internally and leaves the table, from any state in which the cache agrees with the table; the
  -- cache then agrees with the new one. Keys may expire or be evicted before and after every command.
  pub writes_lem :
      (task : Task) (req : UpdateTaskRequest) (id : ℤ) (s : S d)
      → IsSound d impl laws s
      → CreatesSound d impl laws tokens up task s (create d task s)
        × WritesSound d impl laws tokens up
            (update_spec req (table d impl laws s))
            s
            (update d req s)
        × WritesSound d impl laws tokens up (delete_spec id (table d impl laws s)) s (delete d id s)
  writes_lem task req id s sound = (
    create-law d impl laws tokens up task s sound,
    update-law d impl laws tokens up req s sound,
    delete-law d impl laws tokens up id s sound,
  )

  -- So the decorator may stand wherever the repository may.
  unfoldable pub cached_laws : Implements (cached d)
  cached_laws = record {
    live = table d impl laws;
    IsSound = IsSound d impl laws;
    descending = λ s sound. impl.descending s.below sound.0;
    countable = λ s sound. impl.countable s.below sound.0;
    create_law = create-law d impl laws tokens up;
    get_by_id_law = get_by_id-law d impl laws up;
    list_law = list-law d impl laws tokens up;
    update_law = update-law d impl laws tokens up;
    delete_law = delete-law d impl laws tokens up;
    count_law = count-law d impl laws up;
  }

  -- A cache that holds nothing agrees with any table.
  pub empty-IsSound :
      (s : S d)
      → ((k : String) → IsFree k (data_of d laws s))
      → impl.IsSound s.below
      → IsSound d impl laws s
  empty-IsSound s empty sound = (
    sound,
    record {
      tasks = λ id v e. absurd (empty (task_key id) v e);
      pages = λ g req v e f. absurd (empty (page_key g req) v f);
      counted = λ v e. absurd (empty count_key v e);
      tidy = record {
        generation = λ v e. absurd (empty list_gen_key v e);
        fresh = λ m req l. empty (page_key (d.random m) req);
      };
      unlocked = empty count_lock_key;
    },
  )
