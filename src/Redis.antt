-- ===== src/Redis.antt =====
-- Redis and go-redis, which the program calls: a parameter of the model. A command may fail; what
-- Redis documents of its commands is `RedisLaws`. The two Lua scripts are the program's own, from
-- internal/repository/redis/redistask/task.go.
pub mod Laws
pub mod Effects
use graph_code_challenge.Prelude.{
  ◌==◌, ℤ, if◌then◌else◌, Option, ℕ, Bool, String, suc, zero, false, true, some, none,
}
use graph_code_challenge.Errors.{err, ok, Error, plain, sentinel, redis_nil, Result}
use graph_code_challenge.Json.{Json}

-- A value: some text, or a JSON document.
pub data Value : Type 0 where
  text : String → Value
  json : Json → Value

pub data Reply : Type 0 where
  nothing : Reply
  value : Value → Reply
  integer : ℕ → Reply
  status_ok : Reply

pub data Script : Type 0 where
  release_count_lock_script : Script
  list_generation_script : Script

-- Times to live are in nanoseconds for `set` and `set_nx`, in milliseconds for PSETEX.
pub data Command : Type 0 where
  get : String → Command
  set : String → Value → ℤ → Command
  set_nx : String → Value → ℤ → Command
  del : String → Command
  eval : Script → String → String → ℤ → Command

-- What the server holds. That a key expires or is evicted is a step that drops it, at any time, so a
-- time to live is carried and not counted down.
abbrev pub Dataset : Type 0
Dataset = String → Option Value

abbrev pub put : Dataset → String → Value → Dataset
put d k v j = if k == j then some v else d j

abbrev pub drop_key : Dataset → String → Dataset
drop_key d k j = if k == j then none else d j

abbrev is_text : Option Value → String → Bool
is_text (some (text t)) s = t == s
is_text _ s = false

abbrev pub held : Option Value → Reply
held none = nothing
held (some v) = value v

-- if redis.call("GET", KEYS[1]) == ARGV[1] then return redis.call("DEL", KEYS[1]) end return 0
unfoldable pub release_count_lock : String → String → Dataset → Reply × Dataset
release_count_lock key token d =
    if is_text (d key) token then (integer 1, drop_key d key) else (integer 0, d)

-- local generation = redis.call("GET", KEYS[1])
-- if generation then return generation end
-- redis.call("PSETEX", KEYS[1], ARGV[2], ARGV[1]) return ARGV[1]
unfoldable pub list_generation : String → String → Dataset → Reply × Dataset
list_generation key token d = elim (d key) [
  | some generation ↦ (value generation, d)
  | none ↦ (value (text token), put d key (text token))
]

-- What each command does to the data set, and its reply. A script runs as one step.
unfoldable pub apply : Command → Dataset → Reply × Dataset
unfolding release_count_lock list_generation
apply (get k) d = (held (d k), d)
apply (set k v ttl) d = (status_ok, put d k v)
apply (set_nx k v ttl) d = elim (d k) [ some old ↦ (integer 0, d) | none ↦ (integer 1, put d k v) ]
apply (del k) d = elim (d k) [ some old ↦ (integer 1, drop_key d k) | none ↦ (integer 0, d) ]
apply (eval release_count_lock_script k token ms) d = release_count_lock k token d
apply (eval list_generation_script k token ms) d = list_generation k token d

-- The client's side: a command is sent, and time passes between two attempts.
pub record Redis : Type 1 where
  pub State : Type 0
  pub run : Command → State → Result Reply × State
  pub wait : State → State

-- `Get(…)`: go-redis answers the error `redis.Nil` for a key that is not there.
abbrev pub get_result : Result Reply → Result Value
get_result (ok (value v)) = ok v
get_result (ok nothing) = err (sentinel redis_nil)
get_result (ok _) = err (plain "redis: unexpected reply")
get_result (err e) = err e

-- `SetNX(…).Result()`
abbrev pub bool_result : Result Reply → Result Bool
bool_result (ok (integer zero)) = ok false
bool_result (ok (integer (suc _))) = ok true
bool_result (ok _) = err (plain "redis: unexpected reply")
bool_result (err e) = err e

-- `Run(…).Text()`
abbrev pub text_result : Result Reply → Result String
text_result (ok (value (text t))) = ok t
text_result (ok nothing) = err (sentinel redis_nil)
text_result (ok _) = err (plain "redis: unexpected reply")
text_result (err e) = err e
