-- ===== src/Cache/Outage.antt =====
-- Reads while Redis fails every command: they are the reads of the repository below.
use graph_code_challenge.Cache.Keys.{task_key, list_gen_key, count_key}
use graph_code_challenge.Param.{ListTasksRequest}
use graph_code_challenge.Json.{decode_task, Json}
use graph_code_challenge.Prelude.{
  arith, ap, ◌∙◌, ◌==◌, Bool-cases, ℤ, ◌≡◌, refl, inr, inl, false, none,
}
use graph_code_challenge.Errors.{ok, Result, Error, err, is, redis_nil, Result-cases}
use graph_code_challenge.Redis.{
  Value, Redis, Command, get, get_result, list_generation_script, eval,
}
use graph_code_challenge.Cache.Base.{
  generation_ttl_ms, Db, S, ask, call, draw, warn, loaded, load, list_key, listed_key,
}
use graph_code_challenge.Cache.Count.{count, get_count, int64_result}
use graph_code_challenge.Cache.{String, get_by_id, get_missed, list, list_missed, list_at}
use graph_code_challenge.Cache.Transparent.{seen, store-below}

-- Every command fails, with an error that is not the "no such key" of go-redis.
abbrev pub IsDown : Redis → Type 0
IsDown redis =
    (c : Command) (s : redis.State)
    → (e : Error) × ((redis.run c s).0 ≡ err e) × (is e redis_nil ≡ false)

module _ (d : Db) where
  get_missed-seen : (id : ℤ) (s : S d) → seen d (get_missed d id s) ≡ d.next.get_by_id id s.below
  unfolding get_missed ask
  get_missed-seen id s = elim (Result-cases (d.next.get_by_id id s.below).0) [
    | inl (t, e) ↦ rw (e, get_missed, store-below)
    | inr (x, e) ↦ rw (e, get_missed) refl
  ]

  list_missed-seen :
      (key : String) (req : ListTasksRequest) (s : S d)
      → seen d (list_missed d key req s) ≡ d.next.list req s.below
  unfolding list_missed ask
  list_missed-seen key req s = elim (Result-cases (d.next.list req s.below).0) [
    | inl (t, e) ↦ elim (Bool-cases (key == "")) [
      | inl empty ↦ rw (e, list_missed, empty) refl
      | inr full ↦ rw (e, list_missed, full, store-below)
    ]
    | inr (x, e) ↦ rw (e, list_missed) refl
  ]

  loaded-below :
      {A : Type 0} (decode : Json → Result A) (key : String) (r : Result Value) (s : S d)
      → (loaded d decode key r s).1.below ≡ s.below
  unfolding warn
  loaded-below decode key (err e) s = ground arith
  loaded-below decode key (ok payload) s = ground arith

  load-below :
      {A : Type 0} (decode : Json → Result A) (key : String) (s : S d)
      → (load d decode key s).1.below ≡ s.below
  unfolding load call
  load-below decode key s = loaded-below decode key (get_result (d.conn.run (get key) s.cache).0) _

  listed_key-below :
      (req : ListTasksRequest) (r : Result String) (s : S d)
      → (listed_key d req r s).1.below ≡ s.below
  unfolding warn
  listed_key-below req (ok g) s = refl
  listed_key-below req (err e) s = refl

  list_key-below : (req : ListTasksRequest) (s : S d) → (list_key d req s).1.below ≡ s.below
  unfolding list_key draw call
  list_key-below req s = listed_key-below req _ _

  module _ (down : IsDown d.conn) where
    load_down :
        {A : Type 0} (decode : Json → Result A) (key : String) (s : S d)
        → (load d decode key s).0 ≡ none
    unfolding load call
    load_down decode key s = let (e, h, _) = down (get key) s.cache in rw (h, load)

    list_key_down : (req : ListTasksRequest) (s : S d) → (list_key d req s).0 ≡ ""
    unfolding list_key draw call
    list_key_down req s =
        let (e, h, _) =
          down (eval list_generation_script list_gen_key (d.random s.drawn) (generation_ttl_ms d))
            s.cache in
        rw (h, list_key)

    get_by_id_down : (id : ℤ) (s : S d) → seen d (get_by_id d id s) ≡ d.next.get_by_id id s.below
    unfolding get_by_id
    get_by_id_down id s =
        let after = (load d decode_task (task_key id) s).1 in
        rw (load_down decode_task (task_key id) s, get_by_id)
          (get_missed-seen id after
            ∙ ap (d.next.get_by_id id) (load-below decode_task (task_key id) s))

    list_down : (req : ListTasksRequest) (s : S d) → seen d (list d req s) ≡ d.next.list req s.below
    unfolding list list_at
    list_down req s =
        let after = (list_key d req s).1 in
        rw (list_key_down req s, list)
          (list_missed-seen "" req after ∙ ap (d.next.list req) (list_key-below req s))

    count_down : (s : S d) → seen d (count d s) ≡ d.next.count s.below
    unfolding count get_count call ask int64_result warn
    count_down s = let (e, h, other) = down (get count_key) s.cache in rw (h, count, other) refl

    -- With Redis down a read answers exactly as the repository below does: the cache only logs.
    pub reads_down :
        (id : ℤ) (req : ListTasksRequest) (s : S d)
        → (seen d (get_by_id d id s) ≡ d.next.get_by_id id s.below)
          × (seen d (list d req s) ≡ d.next.list req s.below)
          × (seen d (count d s) ≡ d.next.count s.below)
    reads_down id req s = (get_by_id_down id s, list_down req s, count_down s)
