-- ===== src/Cache/Count.antt =====
-- internal/repository/redis/redistask/task.go: the cached count and its lock.
use graph_code_challenge.Prelude.{
  format_int, ◌*◌, if◌then◌else◌, String, ℕ, ℤ, suc, zero, false, true, none, pos,
}
use graph_code_challenge.Errors.{sentinel, is, redis_nil, deadline_exceeded, Result, ok, err, plain}
use graph_code_challenge.Redis.{
  set, Command, Value, get, set_nx, del, eval, text, json, release_count_lock_script, get_result,
  bool_result,
}
use graph_code_challenge.Strconv
use graph_code_challenge.Strconv.{Parsed, parse_int}
use graph_code_challenge.Cache.Keys.{count_key, count_lock_key}
use graph_code_challenge.Cache.Base.{Db, S, ask, call, draw, warn_failed, warn}

abbrev pub second : ℕ
second = 1000000000

abbrev pub count_lock_ttl : ℤ
count_lock_ttl = pos (3 * second)

-- Retries of the lock within `countInvalidationLimit`: four seconds at ten milliseconds each.
abbrev pub invalidation_retries : ℕ
invalidation_retries = 400

abbrev parsed_result : Parsed ℤ → Result ℤ
parsed_result (Strconv.number n) = ok n
parsed_result Strconv.bad_syntax = err (plain "strconv.ParseInt: invalid syntax")
parsed_result Strconv.out_of_range = err (plain "strconv.ParseInt: value out of range")

-- `.Int64()` of a reply to GET.
unfoldable pub int64_result : Result Value → Result ℤ
int64_result (ok (text t)) = parsed_result (parse_int t)
int64_result (ok (json j)) = err (plain "strconv.ParseInt: invalid syntax")
int64_result (err e) = err e

module _ (d : Db) where
  abbrev pub set_lock : String → Command
  set_lock token = set_nx count_lock_key (text token) count_lock_ttl

  -- The loop of `acquireCountLock`: an attempt, and as many more as there are ticks before the
  -- context is done.
  unfoldable pub attempt : ℕ → String → S d → Result String × S d
  attempt zero token s =
      let (r, s1) = call d (set_lock token) s in
      elim (bool_result r) [
        | err e ↦ (err e, s1)
        | ok true ↦ (ok token, s1)
        | ok false ↦ (err (sentinel deadline_exceeded), s1)
      ]
  attempt (suc n) token s =
      let (r, s1) = call d (set_lock token) s in
      elim (bool_result r) [
        | err e ↦ (err e, s1)
        | ok true ↦ (ok token, s1)
        | ok false ↦ attempt n token (record s1 { cache = d.conn.wait s1.cache })
      ]

  unfoldable pub acquire_count_lock : ℕ → S d → Result String × S d
  acquire_count_lock retries s = let (token, s1) = draw d s in attempt retries token s1

  unfoldable pub release_count_lock : String → S d → S d
  release_count_lock token s =
      let (r, s1) = call d (eval release_count_lock_script count_lock_key token (pos 0)) s in
      warn_failed d "release_count_lock" none r s1

  abbrev pub invalidate_locked : Result String → S d → S d
  invalidate_locked (err e) s = warn d "acquire_count_lock" none e s
  invalidate_locked (ok token) s =
      let (r, s1) = call d (del count_key) s in
      release_count_lock token (warn_failed d "invalidate_count" none r s1)

  unfoldable pub invalidate_count : S d → S d
  invalidate_count s =
      let (r, s1) = acquire_count_lock invalidation_retries s in invalidate_locked r s1

  unfoldable pub get_count : S d → Result ℤ × S d
  get_count s = let (r, s1) = call d (get count_key) s in (int64_result (get_result r), s1)

  -- `Count` after the second miss: the repository is asked, and its answer is stored.
  unfoldable pub fill_count : S d → Result ℤ × S d
  fill_count s =
      let (r, s1) = ask d d.next.count s in
      elim r [
        | err e ↦ (err e, s1)
        | ok n ↦
            let (stored, s2) = call d (set count_key (text (format_int n)) d.ttl) s1 in
            (ok n, warn_failed d "set_count" none stored s2)
      ]

  -- `Count` with the lock held: the key is checked again.
  unfoldable pub recheck_count : S d → Result ℤ × S d
  recheck_count s =
      let (r, s1) = get_count s in
      elim r [
        | ok n ↦ (ok n, s1)
        | err e ↦
            if is e redis_nil
            then fill_count s1
            else ask d d.next.count (warn d "recheck_count" none e s1)
      ]

  abbrev pub count_locked : Result String → S d → Result ℤ × S d
  count_locked (err e) s = ask d d.next.count (warn d "acquire_count_lock" none e s)
  count_locked (ok token) s = let (r, s1) = recheck_count s in (r, release_count_lock token s1)

  -- `Count` after the first miss. The release of the lock is deferred: it comes last.
  unfoldable pub count_missed : S d → Result ℤ × S d
  count_missed s = let (r, s1) = acquire_count_lock d.count_retries s in count_locked r s1

  unfoldable pub count : S d → Result ℤ × S d
  count s =
      let (r, s1) = get_count s in
      elim r [
        | ok n ↦ (ok n, s1)
        | err e ↦
            if is e redis_nil
            then count_missed s1
            else ask d d.next.count (warn d "get_count" none e s1)
      ]
