-- ===== src/Cache/Coherence/Pages.antt =====
-- `List` of the decorator over a coherent cache.
use graph_code_challenge.Json.RoundTrip.{decode_tasks-encode_tasks}
use graph_code_challenge.Redis.Effects.{HasPut}
use graph_code_challenge.Cache.Coherence.Gets.{store-Puts}
use graph_code_challenge.Cache.Coherence.Lists.{IsCoherent-store_page, IsCoherent-new_generation}
use graph_code_challenge.Cache.Keys.Distinct.{page_key-ne-list_gen_key, page_key-nonempty}
use graph_code_challenge.Cache.Coherence.Sound.{
  Answers-ok, IsSound-step, IsSound-Quiet, Serves-Quiet, IsSound-asked, Serves, IsSound, table,
}
use graph_code_challenge.Repository.Tasks.{page}
use graph_code_challenge.Json.{decode_tasks, encode_tasks}
use graph_code_challenge.Cache.Keys.{list_gen_key, page_key}
use graph_code_challenge.Cache.Effects.{load-Loads, Quiet, Puts, generation_read, data_of}
use graph_code_challenge.Entity.{Task}
use graph_code_challenge.Cache.{list_at, list, String, list_missed}
use graph_code_challenge.Param.{ListTasksRequest}
use graph_code_challenge.Cache.Coherence.{
  not_put, arith, sym, subst, IsCoherent-draw, List, ℕ, AreTokens,
}
use graph_code_challenge.Redis.Laws.{IsUp, RedisLaws}
use graph_code_challenge.Repository.Spec.{answered, Answers, Implements}
use graph_code_challenge.Cache.Base.{
  marshal_tasks, load, store, unmarshal, S, draw, ask, list_key, Db,
}
use graph_code_challenge.Errors.{Result-cases, ok}
use graph_code_challenge.Prelude.{ap, ◌∙◌, refl, ◌≡◌, ◌<◌, ◌≤ℤ◌, inr, inl, pos, some}
use graph_code_challenge.Redis.{Value, text, json, value}

module _ (d : Db) (impl : Implements d.next) (laws : RedisLaws d.conn) (tokens : AreTokens d.random)
    (up : IsUp d.conn) where
  -- What is kept under a token is the page of the table.
  abbrev PagesUnder : ℕ → List Task → S d → Type 0
  PagesUnder m ts s =
      (req : ListTasksRequest) (v : Value)
      → data_of d laws s (page_key (d.random m) req) ≡ some v
      → v ≡ json (encode_tasks (page req ts))

  -- The key of a page, under a token that was drawn.
  record Keyed (req : ListTasksRequest) (s : S d) (key : String) (s' : S d) : Type 0 where
    token : ℕ
    token_drawn : token < s'.drawn
    named : key ≡ page_key (d.random token) req
    same : table d impl laws s' ≡ table d impl laws s
    sound : IsSound d impl laws s'
    under : PagesUnder token (table d impl laws s') s'

  drawn-IsSound : (s : S d) → IsSound d impl laws s → IsSound d impl laws (draw d s).1
  unfolding draw
  drawn-IsSound s (sound, coherent) = (sound, IsCoherent-draw d.random coherent)

  -- The generation that is held names pages of the table.
  held-Keyed :
      (req : ListTasksRequest) (s s2 : S d) (m : ℕ)
      → IsSound d impl laws s
      → m < s.drawn
      → data_of d laws s list_gen_key ≡ some (text (d.random m))
      → Quiet d laws (draw d s).1 s2
      → Keyed req s (page_key (d.random m) req) s2
  unfolding draw
  held-Keyed req s s2 m sound drawn there quiet =
      let (kept, sound2) =
        IsSound-Quiet d impl laws (draw d s).1 s2 quiet (drawn-IsSound s sound) in
      record {
        token = m;
        token_drawn = omega (arith, quiet.0.drawn, drawn);
        named = refl;
        same = kept;
        sound = sound2;
        under = λ req' v f.
            sound.1.pages (d.random m) req' v there (quiet.1 (page_key (d.random m) req') v f)
            ∙ ap (λ ts. json (encode_tasks (page req' ts))) (sym kept);
      }

  -- A new generation names no pages yet.
  new-Keyed :
      (req : ListTasksRequest) (s s2 : S d)
      → IsSound d impl laws s
      → Puts d laws list_gen_key (text (d.random s.drawn)) (draw d s).1 s2
      → Keyed req s (page_key (d.random s.drawn) req) s2
  unfolding draw
  new-Keyed req s s2 (sound, coherent) (aside, put) =
      let coherent2 =
        IsCoherent-new_generation d.random tokens put coherent.tasks coherent.counted coherent.tidy
          coherent.unlocked in
      let (kept, sound2) = IsSound-step d impl laws (draw d s).1 s2 aside sound coherent2 in
      record {
        token = s.drawn;
        token_drawn = omega (arith, aside.drawn);
        named = refl;
        same = kept;
        sound = sound2;
        under = λ req' v f. absurd (
            coherent.tidy.fresh s.drawn req' (omega arith) v (
              not_put put (page_key (d.random s.drawn) req') v
                (page_key-ne-list_gen_key (d.random s.drawn) req') f));
      }

  list_key-Keyed :
      (req : ListTasksRequest) (s : S d)
      → IsSound d impl laws s
      → Keyed req s (list_key d req s).0 (list_key d req s).1
  unfolding list_key draw
  list_key-Keyed req s sound =
      let s1 = (draw d s).1 in
      elim (generation_read d laws up (d.random s.drawn) s1) [
        | inl (g, e, there, quiet) ↦
            let (m, drawn, is_token) = sound.1.tidy.generation g there in
            let e' = e ∙ ap (λ v. ok (value v)) is_token in
            rw (e', list_key) (held-Keyed req s _ m sound drawn (there ∙ ap some is_token) quiet)
        | inr (e, puts) ↦ rw (e, list_key) (new-Keyed req s _ sound puts)
      ]

  -- A page that the repository below answers with is stored.
  store-page :
      (m : ℕ) (req : ListTasksRequest) (ts : List Task) (s s1 : S d)
      → m < s1.drawn
      → IsSound d impl laws s1
      → table d impl laws s1 ≡ table d impl laws s
      → ts ≡ page req (table d impl laws s)
      → Serves d impl laws
          (ok (page req (table d impl laws s)))
          s
          (ok ts, store d (page_key (d.random m) req) (marshal_tasks ts) s1)
  store-page m req ts s s1 drawn (sound, coherent) same paged =
      let key = page_key (d.random m) req in
      let s2 = store d key (marshal_tasks ts) s1 in
      let (aside, put) = store-Puts d impl laws up key (json (encode_tasks ts)) s1 in
      let paged1 = paged ∙ ap (page req) (sym same) in
      let put1 =
        subst (λ l. HasPut key (json (encode_tasks l)) (data_of d laws s1) (data_of d laws s2))
          paged1 put in
      let (same2, sound2) =
        IsSound-step d impl laws s1 s2 aside sound
          (IsCoherent-store_page d.random tokens m req drawn put1 coherent) in
      (record { answer = answered (ap ok paged); kept = same2 ∙ same }, sound2)

  list_missed-law :
      (m : ℕ) (req : ListTasksRequest) (s : S d)
      → pos 0 ≤ℤ req.limit
      → m < s.drawn
      → IsSound d impl laws s
      → Serves d impl laws
          (ok (page req (table d impl laws s)))
          s
          (list_missed d (page_key (d.random m) req) req s)
  unfolding ask list_missed
  list_missed-law m req s limit drawn sound =
      let key = page_key (d.random m) req in
      let (reads, below) = impl.list_law req s.below limit sound.0 in
      let b = (d.next.list req s.below).1 in
      let sound1 = IsSound-asked d impl laws s b reads.kept below sound in
      elim (Result-cases (d.next.list req s.below).0) [
        | inl (ts, e) ↦
            rw (e, list_missed, page_key-nonempty (d.random m) req)
              (store-page m req ts s (record s { below = b }) drawn sound1 reads.kept
                (Answers-ok reads.answer e))
        | inr (x, e) ↦
            rw (e, list_missed)
              (
                record {
                  answer = subst (Answers (ok (page req (table d impl laws s)))) e reads.answer;
                  kept = reads.kept;
                },
                sound1,
              )
      ]

  -- A page that is kept is the page of the table.
  page_hit :
      (m : ℕ) (req : ListTasksRequest) (v : Value) (ts : List Task) (s : S d)
      → PagesUnder m (table d impl laws s) s
      → data_of d laws s (page_key (d.random m) req) ≡ some v
      → unmarshal decode_tasks v ≡ ok ts
      → ok ts ≡ ok (page req (table d impl laws s))
  unfolding unmarshal
  page_hit m req v ts s under there decoded =
      sym decoded
      ∙ ap (unmarshal decode_tasks) (under req v there)
      ∙ decode_tasks-encode_tasks (page req (table d impl laws s))

  list_at-law :
      (m : ℕ) (req : ListTasksRequest) (s : S d)
      → pos 0 ≤ℤ req.limit
      → m < s.drawn
      → IsSound d impl laws s
      → PagesUnder m (table d impl laws s) s
      → Serves d impl laws
          (ok (page req (table d impl laws s)))
          s
          (list_at d (page_key (d.random m) req) req s)
  unfolding list_at
  list_at-law m req s limit drawn sound under =
      let key = page_key (d.random m) req in
      let s1 = (load d decode_tasks key s).1 in
      let (quiet, outcome) = load-Loads d laws up decode_tasks key s in
      let (same, sound1) = IsSound-Quiet d impl laws s s1 quiet sound in
      elim outcome [
        | inl missing ↦
            rw (page_key-nonempty (d.random m) req, missing, list_at)
              (Serves-Quiet d impl laws (λ ts. ok (page req ts)) s s1 (list_missed d key req s1)
                same (list_missed-law m req s1 limit (omega (arith, drawn, quiet.0.drawn)) sound1))
        | inr (v, ts, there, decoded, hit) ↦
            rw (page_key-nonempty (d.random m) req, hit, list_at)
              (
                record {
                  answer = answered (page_hit m req v ts s under there decoded);
                  kept = same;
                },
                sound1,
              )
      ]

  pub list-law :
      (req : ListTasksRequest) (s : S d)
      → pos 0 ≤ℤ req.limit
      → IsSound d impl laws s
      → Serves d impl laws (ok (page req (table d impl laws s))) s (list d req s)
  unfolding list
  list-law req s limit sound =
      let s1 = (list_key d req s).1 in
      let keyed = list_key-Keyed req s sound in
      rw (keyed.named, list)
        (Serves-Quiet d impl laws (λ ts. ok (page req ts)) s s1
          (list_at d (page_key (d.random keyed.token) req) req s1) keyed.same
          (list_at-law keyed.token req s1 limit keyed.token_drawn keyed.sound keyed.under))
