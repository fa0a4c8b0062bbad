-- ===== src/Cache/Coherence/Retire.antt =====
-- The invalidation of lists and of the count.
use graph_code_challenge.Cache.Coherence.Stored.{IsCoherent-drop_count}
use graph_code_challenge.Cache.Coherence.Lists.{IsCoherent-new_generation}
use graph_code_challenge.Redis.Effects.{IsFree}
use graph_code_challenge.Cache.Keys.{list_gen_key, count_lock_key, count_key}
use graph_code_challenge.Cache.Coherence.Locks.{
  Puts-Held, without_lock_left, without_lock-left, attempt-free, without_lock, release-Held, Held,
}
use graph_code_challenge.Cache.Effects.{set-Puts, del-Drops, data_of}
use graph_code_challenge.Cache.Coherence.{
  IsCoherent-draw, sym, subst, IsTidy, CountAgrees, IsCoherent, TasksAgree, String, AreTokens,
}
use graph_code_challenge.Entity.{Task}
use graph_code_challenge.Redis.Laws.{IsUp, RedisLaws}
use graph_code_challenge.Cache.Base.{
  generation_ttl_factor, warn_failed, call, S, draw, retire_lists, Db,
}
use graph_code_challenge.Errors.{ok}
use graph_code_challenge.Prelude.{scale_int64, ◌∙◌, ◌≡◌, List, none}
use graph_code_challenge.Redis.{held, text, del}
use graph_code_challenge.Cache.Count.{
  invalidation_retries, acquire_count_lock, invalidate_count, invalidate_locked, release_count_lock,
  set_lock,
}

module _ (d : Db) (laws : RedisLaws d.conn) (up : IsUp d.conn) where
  -- The cache alone has moved, and agrees with a table again.
  pub record Settled (ts us : List Task) (s s' : S d) : Type 0 where
    pub below : s'.below ≡ s.below
    pub coherent : IsCoherent d.random ts us s'.drawn (data_of d laws s')

  pub retire_lists-Settled :
      (tokens : AreTokens d.random) (ts us : List Task) (s : S d)
      → TasksAgree ts (data_of d laws s)
      → CountAgrees us (data_of d laws s)
      → IsTidy d.random s.drawn (data_of d laws s)
      → IsFree count_lock_key (data_of d laws s)
      → Settled ts us s (retire_lists d s)
  unfolding retire_lists draw
  retire_lists-Settled tokens ts us s tasks counted tidy free =
      let s1 = (draw d s).1 in
      let (aside, put) =
        set-Puts d laws up "retire_lists" none list_gen_key (text (d.random s.drawn))
          (scale_int64 d.ttl generation_ttl_factor) s1 in
      record {
        below = aside.below;
        coherent =
            subst (λ n. IsCoherent d.random ts us n (data_of d laws (retire_lists d s)))
              (sym aside.drawn)
              (IsCoherent-new_generation d.random tokens put tasks counted tidy free);
      }

  -- With the lock held, the count is deleted and the lock released.
  invalidate_locked-Settled :
      (ts us us' : List Task) (token : String) (s : S d)
      → Held d laws up ts us token s
      → Settled ts us' s (invalidate_locked d (ok token) s)
  invalidate_locked-Settled ts us us' token s held =
      let (r, s0) = call d (del count_key) s in
      let s1 = warn_failed d "invalidate_count" none r s0 in
      let ((aside, kept), free) = del-Drops d laws up "invalidate_count" none count_key s in
      let held1 : Held d laws up ts us' token s1 = record {
        rest =
            subst (λ n. IsCoherent d.random ts us' n (without_lock (data_of d laws s1)))
              (sym aside.drawn)
              (IsCoherent-drop_count d.random us' (without_lock-left kept)
                (λ w e. free w (without_lock_left (data_of d laws s1) count_key w e)) held.rest);
        own = λ w e. held.own w (kept count_lock_key w e);
      } in
      let (aside2, coherent) = release-Held d laws up token s1 held1 in
      record {
        below = aside2.below ∙ aside.below;
        coherent =
            subst
              (λ n. IsCoherent d.random ts us' n (data_of d laws (release_count_lock d token s1)))
              (sym aside2.drawn) coherent;
      }

  pub invalidate_count-Settled :
      (ts us us' : List Task) (s : S d)
      → IsCoherent d.random ts us s.drawn (data_of d laws s)
      → Settled ts us' s (invalidate_count d s)
  unfolding invalidate_count acquire_count_lock draw
  invalidate_count-Settled ts us us' s coherent =
      let token = d.random s.drawn in
      let s1 = (draw d s).1 in
      let s2 = (call d (set_lock d token) s1).1 in
      let (e, puts) = attempt-free d laws up invalidation_retries token s1 coherent.unlocked in
      let held = Puts-Held d laws up token s1 s2 (IsCoherent-draw d.random coherent) puts in
      let settled = invalidate_locked-Settled ts us us' token s2 held in
      rw (e, invalidate_count)
        (record { below = settled.below ∙ puts.0.below; coherent = settled.coherent })
