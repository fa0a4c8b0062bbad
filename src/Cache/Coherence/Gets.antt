-- ===== src/Cache/Coherence/Gets.antt =====
-- `GetByID` of the decorator over a coherent cache.
use graph_code_challenge.Cache.Coherence.{IsCoherent-store_task}
use graph_code_challenge.Json.RoundTrip.{decode_task-encode_task}
use graph_code_challenge.Json.{decode_task, encode_task}
use graph_code_challenge.Cache.{get_by_id, get_missed}
use graph_code_challenge.Cache.Keys.{task_key}
use graph_code_challenge.Cache.Effects.{data_of, load-Loads, set-Puts, Puts}
use graph_code_challenge.Repository.Tasks.{find, get_spec}
use graph_code_challenge.Cache.Coherence.Sound.{
  IsSound-step, Serves-Quiet, IsSound-asked, IsSound-Quiet, Serves, table, IsSound,
}
use graph_code_challenge.Entity.{Task}
use graph_code_challenge.Redis.Laws.{IsUp, RedisLaws}
use graph_code_challenge.Repository.Spec.{failed, answered, Answers, Implements}
use graph_code_challenge.Cache.Base.{unmarshal, load, marshal_task, store, S, ask, Db}
use graph_code_challenge.Errors.{Result, Result-cases, ok}
use graph_code_challenge.Prelude.{ap, ◌∙◌, sym, subst, arith, String, ◌≡◌, List, ℤ, inr, inl, some}
use graph_code_challenge.Redis.{Value, json}

get_spec-some : (id : ℤ) (ts : List Task) {t : Task} → find id ts ≡ some t → ok t ≡ get_spec id ts
get_spec-some id ts e = ground (arith, e)

Answers-found :
    (id : ℤ) (ts : List Task) {t : Task} {r : Result Task}
    → Answers (get_spec id ts) r
    → r ≡ ok t
    → find id ts ≡ some t
Answers-found id ts {t} (answered p) e = let q = sym e ∙ p in ground (arith, q)
Answers-found id ts (failed x p _) e = let q = sym e ∙ p in cc

module _ (d : Db) (impl : Implements d.next) (laws : RedisLaws d.conn) (up : IsUp d.conn) where
  pub store-Puts : (key : String) (v : Value) (s : S d) → Puts d laws key v s (store d key (ok v) s)
  unfolding store
  store-Puts key v s = set-Puts d laws up "set" (some key) key v d.ttl s

  -- A task that the repository below answers with is stored.
  store_found :
      (id : ℤ) (t : Task) (s s1 : S d)
      → IsSound d impl laws s1
      → table d impl laws s1 ≡ table d impl laws s
      → find id (table d impl laws s) ≡ some t
      → Serves d impl laws
          (get_spec id (table d impl laws s))
          s
          (ok t, store d (task_key id) (marshal_task t) s1)
  store_found id t s s1 (sound, coherent) same there =
      let s2 = store d (task_key id) (marshal_task t) s1 in
      let (aside, put) = store-Puts (task_key id) (json (encode_task t)) s1 in
      let there1 = ap (find id) same ∙ there in
      let (same2, sound2) =
        IsSound-step d impl laws s1 s2 aside sound
          (IsCoherent-store_task d.random id t there1 put coherent) in
      (
        record {
          answer = answered (get_spec-some id (table d impl laws s) there);
          kept = same2 ∙ same;
        },
        sound2,
      )

  get_missed-law :
      (id : ℤ) (s : S d)
      → IsSound d impl laws s
      → Serves d impl laws (get_spec id (table d impl laws s)) s (get_missed d id s)
  unfolding ask get_missed
  get_missed-law id s sound =
      let (reads, below) = impl.get_by_id_law id s.below sound.0 in
      let b = (d.next.get_by_id id s.below).1 in
      let sound1 = IsSound-asked d impl laws s b reads.kept below sound in
      elim (Result-cases (d.next.get_by_id id s.below).0) [
        | inl (t, e) ↦
            rw (e, get_missed)
              (store_found id t s (record s { below = b }) sound1 reads.kept
                (Answers-found id (table d impl laws s) reads.answer e))
        | inr (x, e) ↦
            rw (e, get_missed)
              (
                record {
                  answer = subst (Answers (get_spec id (table d impl laws s))) e reads.answer;
                  kept = reads.kept;
                },
                sound1,
              )
      ]

  -- A cached task is the live one.
  hit-found :
      (id : ℤ) (v : Value) (t : Task) (s : S d)
      → IsSound d impl laws s
      → data_of d laws s (task_key id) ≡ some v
      → unmarshal decode_task v ≡ ok t
      → ok t ≡ get_spec id (table d impl laws s)
  unfolding unmarshal
  hit-found id v t s (_, coherent) there decoded =
      let (u, live, same) = coherent.tasks id v there in
      sym (sym (decode_task-encode_task u) ∙ sym (ap (unmarshal decode_task) same) ∙ decoded)
      ∙ get_spec-some id (table d impl laws s) live

  pub get_by_id-law :
      (id : ℤ) (s : S d)
      → IsSound d impl laws s
      → Serves d impl laws (get_spec id (table d impl laws s)) s (get_by_id d id s)
  unfolding get_by_id
  get_by_id-law id s sound =
      let key = task_key id in
      let s1 = (load d decode_task key s).1 in
      let (quiet, outcome) = load-Loads d laws up decode_task key s in
      let (same, sound1) = IsSound-Quiet d impl laws s s1 quiet sound in
      elim outcome [
        | inl missing ↦
            rw (missing, get_by_id)
              (Serves-Quiet d impl laws (get_spec id) s s1 (get_missed d id s1) same
                (get_missed-law id s1 sound1))
        | inr (v, t, there, decoded, hit) ↦
            rw (hit, get_by_id)
              (
                record { answer = answered (hit-found id v t s sound there decoded); kept = same },
                sound1,
              )
      ]
