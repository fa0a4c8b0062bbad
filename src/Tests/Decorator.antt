-- ===== src/Tests/Decorator.antt =====
-- internal/repository/redis/redistask over a table that is kept in memory, with Redis up or down.
use graph_code_challenge.Redis.Effects.{IsFree}
use graph_code_challenge.Repository.Tasks.{delete_spec, update_spec, page, get_spec}
use graph_code_challenge.Cache.Coherence.Writes.{WritesSound, CreatesSound}
use graph_code_challenge.Cache.Keys.Distinct.{page_key-injective}
use graph_code_challenge.Cache.Keys.Numbers.{format_int-NoColon, format_int-injective}
use graph_code_challenge.Cache.Refinement.{writes_lem, reads_lem, empty-IsSound}
use graph_code_challenge.Cache.Coherence.{AreTokens}
use graph_code_challenge.Redis.Laws.{⊑_refl, IsUp, RedisLaws}
use graph_code_challenge.Tests.Operations.{
  two_tasks-IsTable, everything, finish, first_task, two_tasks,
}
use graph_code_challenge.Cache.Transparent.{writes-seen, seen}
use graph_code_challenge.Cache
use graph_code_challenge.Cache.Base
use graph_code_challenge.Cache.Count
use graph_code_challenge.Cache.Coherence.Sound.{IsSound, Serves}
use graph_code_challenge.Redis.{apply, Dataset}
use graph_code_challenge.Tests.Memory.{memory_laws, memory}
use graph_code_challenge.Cache.Base.{Db}
use graph_code_challenge.Redis.{Redis}
use graph_code_challenge.Cache.Outage.{reads_down, IsDown}
use graph_code_challenge.Errors.{ok, is, plain, err}
use graph_code_challenge.Prelude.{
  String, pos_part, ap, arith, format_int, none, ◌≡◌, [], decimal, refl, pos,
}

-- A Redis that refuses every command.
abbrev refusing : Redis
refusing = record {
  State = Unit {0};
  run = λ c s. (err (plain "connection refused"), s);
  wait = λ s. s;
}

abbrev pub over : Redis → Db
over conn = record {
  next = memory;
  conn = conn;
  ttl = pos 60000000000;
  random = decimal;
  count_retries = 10;
}

refusing-IsDown : IsDown refusing
unfolding is
refusing-IsDown c s = (plain "connection refused", refl, refl)

abbrev pub start : (conn : Redis) → conn.State → Base.S (over conn)
start conn cache = record { below = two_tasks; cache = cache; drawn = 0; log = [] }

writes-seen_example :
    let d = over refusing in
    let s = start refusing tt in
    (seen d (Cache.create d first_task s) ≡ memory.create first_task two_tasks)
    × (seen d (Cache.update d finish s) ≡ memory.update finish two_tasks)
    × (seen d (Cache.delete d (pos 1) s) ≡ memory.delete (pos 1) two_tasks)
writes-seen_example = writes-seen (over refusing) first_task finish (pos 1) (start refusing tt)

reads_down_example :
    let d = over refusing in
    let s = start refusing tt in
    (seen d (Cache.get_by_id d (pos 1) s) ≡ memory.get_by_id (pos 1) two_tasks)
    × (seen d (Cache.list d everything s) ≡ memory.list everything two_tasks)
    × (seen d (Count.count d s) ≡ memory.count two_tasks)
reads_down_example =
    reads_down (over refusing) refusing-IsDown (pos 1) everything (start refusing tt)

-- A Redis that answers every command, and drops no key.
abbrev pub server : Redis
server = record {
  State = Dataset;
  run = λ c ds. let (r, ds') = apply c ds in (ok r, ds');
  wait = λ ds. ds;
}

pub server_laws : RedisLaws server
server_laws = record {
  dataset = λ ds. ds;
  ran = λ c ds r e. record {
    at = ds;
    left = ⊑_refl ds;
    reply = let same = e in cc;
    result = ⊑_refl (apply c ds).1;
  };
  lost = λ c ds x e. cc;
  waited = λ ds. ⊑_refl ds;
}

pub server-IsUp : IsUp server
server-IsUp c ds = ((apply c ds).0, refl)

pub decimal-AreTokens : AreTokens decimal
unfolding format_int
decimal-AreTokens = record {
  distinct = λ m n e. let same = format_int-injective (pos m) (pos n) e in ap pos_part same;
  clean = λ n. format_int-NoColon (pos n);
}

abbrev pub empty : Dataset
empty k = none

pub empty-IsFree : (k : String) → IsFree k (server_laws.dataset empty)
unfolding server_laws
empty-IsFree k v e = cc

pub empty-start : IsSound (over server) memory_laws server_laws (start server empty)
unfolding memory_laws
empty-start =
    empty-IsSound (over server) memory_laws server_laws decimal-AreTokens server-IsUp
      (start server empty) empty-IsFree two_tasks-IsTable

reads_lem_example :
    let d = over server in
    let s = start server empty in
    Serves d memory_laws server_laws (get_spec (pos 1) two_tasks) s (Cache.get_by_id d (pos 1) s)
    × Serves d memory_laws server_laws
        (ok (page everything two_tasks))
        s
        (Cache.list d everything s)
    × Serves d memory_laws server_laws (ok (pos 2)) s (Count.count d s)
unfolding memory_laws
reads_lem_example =
    reads_lem (over server) memory_laws server_laws decimal-AreTokens server-IsUp (pos 1) everything
      (start server empty) (omega arith) empty-start

writes_lem_example :
    let d = over server in
    let s = start server empty in
    CreatesSound d memory_laws server_laws decimal-AreTokens server-IsUp first_task s
      (Cache.create d first_task s)
    × WritesSound d memory_laws server_laws decimal-AreTokens server-IsUp
        (update_spec finish two_tasks)
        s
        (Cache.update d finish s)
    × WritesSound d memory_laws server_laws decimal-AreTokens server-IsUp
        (delete_spec (pos 1) two_tasks)
        s
        (Cache.delete d (pos 1) s)
unfolding memory_laws
writes_lem_example =
    writes_lem (over server) memory_laws server_laws decimal-AreTokens server-IsUp first_task finish
      (pos 1) (start server empty) empty-start

page_key-injective_example : (decimal 7 ≡ decimal 7) × (everything ≡ everything)
page_key-injective_example =
    page_key-injective (decimal 7) (decimal 7) everything everything (decimal-AreTokens.clean 7)
      (decimal-AreTokens.clean 7) refl
