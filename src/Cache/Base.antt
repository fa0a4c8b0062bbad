-- ===== src/Cache/Base.antt =====
-- internal/repository/redis/redistask/task.go: the decorator's state, and its reads and writes of
-- single keys.
use graph_code_challenge.Prelude.{
  ◌∷◌, divide_int64, ◌++◌, max_ℤ, if◌then◌else◌, scale_int64, ◌+◌, Option, String, List, ℕ, ℤ, some,
  none, pos, [],
}
use graph_code_challenge.Errors.{Error, is, redis_nil, Result, ok, err, plain}
use graph_code_challenge.Entity.{Task}
use graph_code_challenge.Param.{ListTasksRequest}
use graph_code_challenge.Repository.{Repository}
use graph_code_challenge.Json.{Json, encode_task, encode_tasks}
use graph_code_challenge.Redis.{
  set, Redis, Command, Value, Reply, get, del, eval, text, json, list_generation_script, get_result,
  text_result,
}
use graph_code_challenge.Cache.Keys.{task_key, page_key, list_gen_key}

abbrev pub generation_ttl_factor : ℕ
generation_ttl_factor = 10

-- A warning, with its operation, its cache key if it names one, and its error.
pub record Warning : Type 0 where
  pub operation : String
  cache_key : Option String
  pub error : Error

-- `json.Unmarshal(payload, into)`
unfoldable pub unmarshal {ℓ} : {A : Type ℓ} → (Json → Result A) → Value → Result A
unmarshal decode (json j) = decode j
unmarshal decode (text t) = err (plain "invalid character in JSON")

-- `json.Marshal` of a task or of tasks; it does not fail on these types.
abbrev pub marshal_task : Task → Result Value
marshal_task t = ok (json (encode_task t))

abbrev pub marshal_tasks : List Task → Result Value
marshal_tasks ts = ok (json (encode_tasks ts))

-- The decorator, with what the model adds to it: the tokens that `rand.Text()` draws, in order, and
-- how often `Count` retries the lock before its context is done. The log is part of the state.
pub record Db : Type 1 where
  pub next : Repository
  pub conn : Redis
  pub ttl : ℤ
  pub random : ℕ → String
  pub count_retries : ℕ

pub record State (d : Db) : Type 0 where
  pub below : d.next.State
  pub cache : d.conn.State
  pub drawn : ℕ
  pub log : List Warning

module _ (d : Db) where
  abbrev pub S : Type 0
  S = State d

  -- A call of the wrapped repository.
  unfoldable pub ask : {A : Type 0} → (d.next.State → Result A × d.next.State) → S → Result A × S
  ask m s = let (r, below) = m s.below in (r, record s { below = below })

  -- A Redis command.
  unfoldable pub call : Command → S → Result Reply × S
  call c s = let (r, cache) = d.conn.run c s.cache in (r, record s { cache = cache })

  -- `rand.Text()`
  unfoldable pub draw : S → String × S
  draw s = (d.random s.drawn, record s { drawn = s.drawn + 1 })

  unfoldable pub warn : String → Option String → Error → S → S
  warn operation key e s = record s {
    log = s.log ++ record { operation = operation; cache_key = key; error = e } ∷ [];
  }

  -- A failed command is logged, and that is all.
  abbrev pub warn_failed : String → Option String → Result Reply → S → S
  warn_failed operation key (ok r) s = s
  warn_failed operation key (err e) s = warn operation key e s

  abbrev pub loaded : {A : Type 0} → (Json → Result A) → String → Result Value → S → Option A × S
  loaded decode key (err e) s = (none, if is e redis_nil then s else warn "get" (some key) e s)
  loaded decode key (ok payload) s = elim (unmarshal decode payload) [
    | ok a ↦ (some a, s)
    | err e ↦ (none, warn "decode" (some key) e s)
  ]

  unfoldable pub load : {A : Type 0} → (Json → Result A) → String → S → Option A × S
  load decode key s = let (r, s1) = call (get key) s in loaded decode key (get_result r) s1

  unfoldable pub store : String → Result Value → S → S
  store key (err e) s = warn "encode" (some key) e s
  store key (ok payload) s =
      let (r, s1) = call (set key payload d.ttl) s in warn_failed "set" (some key) r s1

  unfoldable pub evict : ℤ → S → S
  evict id s =
      let key = task_key id in
      let (r, s1) = call (del key) s in warn_failed "delete" (some key) r s1

  unfoldable pub retire_lists : S → S
  retire_lists s =
      let (token, s1) = draw s in
      let (r, s2) =
        call (set list_gen_key (text token) (scale_int64 d.ttl generation_ttl_factor)) s1 in
      warn_failed "retire_lists" none r s2

  abbrev pub generation_ttl_ms : ℤ
  generation_ttl_ms = max_ℤ (divide_int64 (scale_int64 d.ttl generation_ttl_factor) 1000000) (pos 1)

  abbrev pub listed_key : ListTasksRequest → Result String → S → String × S
  listed_key req (ok generation) s = (page_key generation req, s)
  listed_key req (err e) s = ("", warn "get_list_generation" none e s)

  -- The empty key means that there is none.
  unfoldable pub list_key : ListTasksRequest → S → String × S
  list_key req s =
      let (token, s1) = draw s in
      let (r, s2) = call (eval list_generation_script list_gen_key token generation_ttl_ms) s1 in
      listed_key req (text_result r) s2
