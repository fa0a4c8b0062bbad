-- ===== src/Cache/Coherence/Stored.antt =====
-- The stored count in a coherent cache: `int64Result` reads it back, and which keys it leaves alone.
use graph_code_challenge.Cache.Keys.Distinct.{
  page_key-ne-count_key, fixed_keys_differ, task_key-ne-count_key,
}
use graph_code_challenge.Strconv.RoundTrip.{parse_int-format_int}
use graph_code_challenge.Redis.Effects.{IsFree, HasPut}
use graph_code_challenge.Cache.Keys.{count_lock_key, page_key, list_gen_key, task_key, count_key}
use graph_code_challenge.Entity.{Task}
use graph_code_challenge.Cache.Coherence.{
  sym, IsTidy-put, arith, not_put, IsCoherent-left, IsCoherent, IsAside,
}
use graph_code_challenge.Redis.Laws.{◌⊑◌}
use graph_code_challenge.Errors.{ok}
use graph_code_challenge.Prelude.{
  ◌≡◌, ◌^◌, format_int, ◌<◌, length, String, List, ℕ, refl, inr, inl, pos,
}
use graph_code_challenge.Redis.{Value, text, Dataset}
use graph_code_challenge.Cache.Count.{int64_result}

-- A stored count reads back as the number that it is of.
pub stored_count :
    (ts : List Task) (v : Value)
    → length ts < 2 ^ 63
    → v ≡ text (format_int (pos (length ts)))
    → int64_result (ok v) ≡ ok (pos (length ts))
unfolding int64_result
stored_count ts v fits e = rw (e, parse_int-format_int (pos (length ts)) (fits, omega arith)) refl

module _ (random : ℕ → String) where
  count_key-IsAside : IsAside random count_key
  count_key-IsAside = (fixed_keys_differ.0, λ g req. page_key-ne-count_key g req)

  pub IsCoherent-store_count :
      {ts us : List Task} {n : ℕ} {ds ds' : Dataset}
      → HasPut count_key (text (format_int (pos (length us)))) ds ds'
      → IsCoherent random ts us n ds
      → IsCoherent random ts us n ds'
  IsCoherent-store_count put h = record {
    tasks = λ id v e. h.tasks id v (not_put put (task_key id) v (task_key-ne-count_key id) e);
    pages = λ g req v e f.
        h.pages g req v (not_put put list_gen_key (text g) fixed_keys_differ.0 e)
          (not_put put (page_key g req) v (page_key-ne-count_key g req) f);
    counted =
        λ v e. elim (put count_key v e) [ inl (_, same) ↦ same | inr (off, _) ↦ absurd (off refl) ];
    tidy = IsTidy-put random count_key-IsAside put h.tidy;
    unlocked = λ v e.
        h.unlocked v (not_put put count_lock_key v (λ same. fixed_keys_differ.2 (sym same)) e);
  }

  -- With no count stored, the count agrees with any table.
  pub IsCoherent-drop_count :
      {ts us : List Task} {n : ℕ} {ds ds' : Dataset} (us' : List Task)
      → ds' ⊑ ds
      → IsFree count_key ds'
      → IsCoherent random ts us n ds
      → IsCoherent random ts us' n ds'
  IsCoherent-drop_count us' lost free h =
      let left = IsCoherent-left random lost h in
      record {
        tasks = left.tasks;
        pages = left.pages;
        counted = λ v e. absurd (free v e);
        tidy = left.tidy;
        unlocked = left.unlocked;
      }
