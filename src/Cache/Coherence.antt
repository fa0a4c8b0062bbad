-- ===== src/Cache/Coherence.antt =====
-- When what the cache holds agrees with a table of tasks, and which writes to it keep that.
pub mod Lists
pub mod Sound
pub mod Gets
pub mod Pages
pub mod Locks
pub mod Counts
pub mod Stored
pub mod Tables
pub mod Retire
pub mod Writes
use graph_code_challenge.Json.{encode_tasks, encode_task}
use graph_code_challenge.Cache.Keys.Distinct.{
  task_key-ne-count_lock_key, task_key-ne-count_key, task_key-ne-page_key, task_key-injective,
  task_key-ne-list_gen_key,
}
use graph_code_challenge.Cache.Keys.Numbers.{NoColon}
use graph_code_challenge.Repository.Tasks.{page, find}
use graph_code_challenge.Param.{ListTasksRequest}
use graph_code_challenge.Entity.{Task}
use graph_code_challenge.Redis.Effects.{IsFree, HasPut}
use graph_code_challenge.Redis.Laws.{◌⊑◌}
use graph_code_challenge.Cache.Keys.{count_lock_key, count_key, page_key, task_key, list_gen_key}
use graph_code_challenge.Prelude.{
  subst, sym, length, ◌≤◌, format_int, ◌≢◌, ◌<◌, arith, ℤ, ◌+◌, ◌≡◌, ℕ, String, List, inr, inl, pos,
  some,
}
use graph_code_challenge.Redis.{Value, text, json, Dataset}

-- What `rand.Text()` is relied on for: it does not repeat, and its texts hold no colon.
pub record AreTokens (random : ℕ → String) : Type 0 where
  pub distinct : (m n : ℕ) → random m ≡ random n → m ≡ n
  pub clean : (n : ℕ) → NoColon (random n)

-- A cached task is the live one.
abbrev pub TasksAgree : List Task → Dataset → Type 0
TasksAgree ts ds =
    (id : ℤ) (v : Value)
    → ds (task_key id) ≡ some v
    → (t : Task) × (find id ts ≡ some t) × (v ≡ json (encode_task t))

-- A cached page of the current generation is the page of the table.
abbrev pub PagesAgree : List Task → Dataset → Type 0
PagesAgree ts ds =
    (g : String) (req : ListTasksRequest) (v : Value)
    → ds list_gen_key ≡ some (text g)
    → ds (page_key g req) ≡ some v
    → v ≡ json (encode_tasks (page req ts))

-- The cached count is the number of live tasks.
abbrev pub CountAgrees : List Task → Dataset → Type 0
CountAgrees ts ds = (v : Value) → ds count_key ≡ some v → v ≡ text (format_int (pos (length ts)))

pub not_put :
    {k : String} {v : Value} {ds ds' : Dataset}
    → HasPut k v ds ds'
    → (j : String) (w : Value) → j ≢ k
    → ds' j ≡ some w
    → ds j ≡ some w
not_put put j w other e = elim (put j w e) [
  | inl (same, _) ↦ absurd (other same)
  | inr (_, old) ↦ old
]

module _ (random : ℕ → String) where
  -- The generation is a token that was drawn, and no page stands under one that is still to come.
  pub record IsTidy (n : ℕ) (ds : Dataset) : Type 0 where
    pub generation :
        (v : Value) → ds list_gen_key ≡ some v → (m : ℕ) × (m < n) × (v ≡ text (random m))
    pub fresh : (m : ℕ) (req : ListTasksRequest) → n ≤ m → IsFree (page_key (random m) req) ds

  -- The count may be of another table than the tasks and the pages, while a write is under way.
  pub record IsCoherent (ts us : List Task) (n : ℕ) (ds : Dataset) : Type 0 where
    pub tasks : TasksAgree ts ds
    pub pages : PagesAgree ts ds
    pub counted : CountAgrees us ds
    pub tidy : IsTidy n ds
    pub unlocked : IsFree count_lock_key ds

  IsTidy-left : {n : ℕ} {ds ds' : Dataset} → ds' ⊑ ds → IsTidy n ds → IsTidy n ds'
  IsTidy-left lost h = record {
    generation = λ v e. h.generation v (lost list_gen_key v e);
    fresh = λ m req l v e. h.fresh m req l v (lost (page_key (random m) req) v e);
  }

  -- Keys that vanish do no harm.
  pub IsCoherent-left :
      {ts us : List Task} {n : ℕ} {ds ds' : Dataset}
      → ds' ⊑ ds
      → IsCoherent ts us n ds
      → IsCoherent ts us n ds'
  IsCoherent-left lost h = record {
    tasks = λ id v e. h.tasks id v (lost (task_key id) v e);
    pages =
        λ g req v e f. h.pages g req v (lost list_gen_key (text g) e) (lost (page_key g req) v f);
    counted = λ v e. h.counted v (lost count_key v e);
    tidy = IsTidy-left lost h.tidy;
    unlocked = λ v e. h.unlocked v (lost count_lock_key v e);
  }

  IsTidy-draw : {n : ℕ} {ds : Dataset} → IsTidy n ds → IsTidy (n + 1) ds
  IsTidy-draw h = record {
    generation = λ v e. let (m, l, same) = h.generation v e in (m, omega (arith, l), same);
    fresh = λ m req l. h.fresh m req (omega (arith, l));
  }

  pub IsCoherent-draw :
      {ts us : List Task} {n : ℕ} {ds : Dataset}
      → IsCoherent ts us n ds
      → IsCoherent ts us (n + 1) ds
  IsCoherent-draw h = record {
    tasks = h.tasks;
    pages = h.pages;
    counted = h.counted;
    tidy = IsTidy-draw h.tidy;
    unlocked = h.unlocked;
  }

  -- A key that names neither a page nor the generation.
  abbrev pub IsAside : String → Type 0
  IsAside k = (list_gen_key ≢ k) × ((g : String) (req : ListTasksRequest) → page_key g req ≢ k)

  pub IsTidy-put :
      {n : ℕ} {k : String} {v : Value} {ds ds' : Dataset}
      → IsAside k
      → HasPut k v ds ds'
      → IsTidy n ds
      → IsTidy n ds'
  IsTidy-put (gen, pages) put h = record {
    generation = λ w e. h.generation w (not_put put list_gen_key w gen e);
    fresh = λ m req l w e.
        h.fresh m req l w (not_put put (page_key (random m) req) w (pages (random m) req) e);
  }

  task_key-IsAside : (id : ℤ) → IsAside (task_key id)
  task_key-IsAside id =
      (λ e. task_key-ne-list_gen_key id (sym e), λ g req e. task_key-ne-page_key id g req (sym e))

  -- A live task may be stored.
  pub IsCoherent-store_task :
      {ts us : List Task} {n : ℕ} {ds ds' : Dataset} (id : ℤ) (t : Task)
      → find id ts ≡ some t
      → HasPut (task_key id) (json (encode_task t)) ds ds'
      → IsCoherent ts us n ds
      → IsCoherent ts us n ds'
  IsCoherent-store_task {ts} id t there put h = record {
    tasks = λ id' v e. elim (put (task_key id') v e) [
      | inl (same, stored) ↦
          (t, subst (λ i. find i ts ≡ some t) (sym (task_key-injective id' id same)) there, stored)
      | inr (_, old) ↦ h.tasks id' v old
    ];
    pages = λ g req v e f.
        let (gen, other) = task_key-IsAside id in
        h.pages g req v (not_put put list_gen_key (text g) gen e)
          (not_put put (page_key g req) v (other g req) f);
    counted = λ v e.
        h.counted v (not_put put count_key v (λ same. task_key-ne-count_key id (sym same)) e);
    tidy = IsTidy-put (task_key-IsAside id) put h.tidy;
    unlocked = λ v e.
        h.unlocked v
          (not_put put count_lock_key v (λ same. task_key-ne-count_lock_key id (sym same)) e);
  }
