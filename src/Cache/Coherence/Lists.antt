-- ===== src/Cache/Coherence/Lists.antt =====
-- Pages and generations: which writes keep a cache coherent.
use graph_code_challenge.Cache.Keys.Distinct.{
  page_key-ne-count_lock_key, page_key-ne-count_key, task_key-ne-list_gen_key, fixed_keys_differ,
  task_key-ne-page_key, page_key-injective, page_key-ne-list_gen_key,
}
use graph_code_challenge.Repository.Tasks.{page}
use graph_code_challenge.Json.{encode_tasks}
use graph_code_challenge.Param.{ListTasksRequest}
use graph_code_challenge.Cache.Keys.Numbers.{NoColon}
use graph_code_challenge.Redis.Effects.{IsFree, HasPut}
use graph_code_challenge.Cache.Keys.{count_key, task_key, count_lock_key, page_key, list_gen_key}
use graph_code_challenge.Entity.{Task}
use graph_code_challenge.Cache.Coherence.{
  arith, IsCoherent, CountAgrees, not_put, sym, TasksAgree, subst, PagesAgree, List, IsTidy,
  AreTokens,
}
use graph_code_challenge.Prelude.{◌+◌, ap, ◌∙◌, ◌<◌, refl, ◌≡◌, String, ℕ, inr, inl, some}
use graph_code_challenge.Redis.{text, json, Dataset}

text-injective : (a b : String) → text a ≡ text b → a ≡ b
text-injective a b e = cc

module _ (random : ℕ → String) (tokens : AreTokens random) where
  -- A generation that is held holds no colon.
  generation-clean :
      {n : ℕ} {ds : Dataset} (g : String)
      → IsTidy random n ds
      → ds list_gen_key ≡ some (text g)
      → NoColon g
  generation-clean g h e =
      let (m, _, same) = h.generation (text g) e in
      subst NoColon (sym (text-injective g (random m) same)) (tokens.clean m)

  store_page-pages :
      (ts : List Task) {n : ℕ} {ds ds' : Dataset} (m : ℕ) (req : ListTasksRequest)
      → HasPut (page_key (random m) req) (json (encode_tasks (page req ts))) ds ds'
      → IsTidy random n ds
      → PagesAgree ts ds
      → PagesAgree ts ds'
  store_page-pages ts m req put tidy pages g req' v e f =
      let e' =
        not_put put list_gen_key (text g)
          (λ same. page_key-ne-list_gen_key (random m) req (sym same)) e in
      elim (put (page_key g req') v f) [
        | inl (same, stored) ↦
            let (_, one) =
              page_key-injective g (random m) req' req (generation-clean g tidy e') (tokens.clean m)
                same in
            stored ∙ ap (λ r. json (encode_tasks (page r ts))) (sym one)
        | inr (_, old) ↦ pages g req' v e' old
      ]

  -- The page of the table may be stored under a token that was drawn.
  pub IsCoherent-store_page :
      {ts us : List Task} {n : ℕ} {ds ds' : Dataset} (m : ℕ) (req : ListTasksRequest)
      → m < n
      → HasPut (page_key (random m) req) (json (encode_tasks (page req ts))) ds ds'
      → IsCoherent random ts us n ds
      → IsCoherent random ts us n ds'
  IsCoherent-store_page {ts} m req drawn put h = record {
    tasks = λ id v e.
        h.tasks id v (not_put put (task_key id) v (task_key-ne-page_key id (random m) req) e);
    pages = store_page-pages ts m req put h.tidy h.pages;
    counted = λ v e.
        h.counted v
          (not_put put count_key v (λ same. page_key-ne-count_key (random m) req (sym same)) e);
    tidy = record {
      generation = λ v e. h.tidy.generation v (
          not_put put list_gen_key v (λ same. page_key-ne-list_gen_key (random m) req (sym same))
            e);
      fresh = λ m' req' l v e. elim (put (page_key (random m') req') v e) [
        | inl (same, _) ↦
            let (one, _) =
              page_key-injective (random m') (random m) req' req (tokens.clean m') (tokens.clean m)
                same in
            let again = tokens.distinct m' m one in omega (arith, again, l, drawn)
        | inr (_, old) ↦ h.tidy.fresh m' req' l v old
      ];
    };
    unlocked = λ v e. h.unlocked v (
        not_put put count_lock_key v (λ same. page_key-ne-count_lock_key (random m) req (sym same))
          e);
  }

  -- A new generation begins with no pages, whatever the table was that the pages before it show.
  new_generation-pages :
      (ts : List Task) {n : ℕ} {ds ds' : Dataset}
      → HasPut list_gen_key (text (random n)) ds ds'
      → IsTidy random n ds
      → PagesAgree ts ds'
  new_generation-pages ts {n} {ds} put tidy g req v e f = elim (put list_gen_key (text g) e) [
    | inl (_, new) ↦
        let same = text-injective g (random n) new in
        let f' = not_put put (page_key g req) v (page_key-ne-list_gen_key g req) f in
        absurd (tidy.fresh n req (omega arith) v (ap (λ h. ds (page_key h req)) (sym same) ∙ f'))
    | inr (off, _) ↦ absurd (off refl)
  ]

  -- The next token becomes the generation: what is kept apart from pages is as it was.
  pub IsCoherent-new_generation :
      {ts us : List Task} {n : ℕ} {ds ds' : Dataset}
      → HasPut list_gen_key (text (random n)) ds ds'
      → TasksAgree ts ds
      → CountAgrees us ds
      → IsTidy random n ds
      → IsFree count_lock_key ds
      → IsCoherent random ts us (n + 1) ds'
  IsCoherent-new_generation {ts} {n = n} put tasks counted tidy unlocked =
      let (gen_count, gen_lock, _) = fixed_keys_differ in
      record {
        tasks = λ id v e. tasks id v (not_put put (task_key id) v (task_key-ne-list_gen_key id) e);
        pages = new_generation-pages ts put tidy;
        counted = λ v e. counted v (not_put put count_key v (λ same. gen_count (sym same)) e);
        tidy = record {
          generation = λ v e. elim (put list_gen_key v e) [
            | inl (_, new) ↦ (n, omega arith, new)
            | inr (off, _) ↦ absurd (off refl)
          ];
          fresh = λ m req l v e.
              tidy.fresh m req (omega (arith, l)) v (
                not_put put (page_key (random m) req) v (page_key-ne-list_gen_key (random m) req)
                  e);
        };
        unlocked = λ v e. unlocked v (not_put put count_lock_key v (λ same. gen_lock (sym same)) e);
      }
