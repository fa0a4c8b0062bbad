-- ===== src/Cache/Coherence/Counts.antt =====
-- `Count` of the decorator over a coherent cache.
use graph_code_challenge.Cache.Coherence.Stored.{IsCoherent-store_count, stored_count}
use graph_code_challenge.Cache.Coherence.Sound.{
  IsSound-step, Serves-Quiet, IsSound-Quiet, IsSound, Serves, Answers-ok, table,
}
use graph_code_challenge.Cache.Coherence.Locks.{
  Puts-Held, attempt-free, release-Held, without_lock, Held-Quiet, without_lock-HasPut,
  Held-counted, Held,
}
use graph_code_challenge.Cache.Keys.Distinct.{fixed_keys_differ}
use graph_code_challenge.Cache.Effects.{set-Puts, Puts, call-get, Quiet, data_of}
use graph_code_challenge.Redis.Effects.{HasPut}
use graph_code_challenge.Cache.Keys.{count_lock_key, count_key}
use graph_code_challenge.Entity.{Task}
use graph_code_challenge.Cache.Coherence.{
  IsCoherent-draw, subst, sym, CountAgrees, not_put, IsCoherent,
}
use graph_code_challenge.Redis.Laws.{IsUp, RedisLaws}
use graph_code_challenge.Repository.Spec.{answered, Answers, Reads, Implements}
use graph_code_challenge.Cache.Base.{call, draw, ask, S, Db}
use graph_code_challenge.Errors.{Result-cases, is, Result, redis_nil, sentinel, err, ok}
use graph_code_challenge.Prelude.{
  none, ◌∙◌, ap, ℤ, ◌⊎◌, ◌≡◌, ◌^◌, format_int, ◌<◌, length, String, List, refl, inr, inl, pos,
}
use graph_code_challenge.Redis.{held, text}
use graph_code_challenge.Cache.Count.{
  release_count_lock, set_lock, count_locked, acquire_count_lock, count, count_missed,
  recheck_count, fill_count, int64_result, get_count,
}

module _ (d : Db) (impl : Implements d.next) (laws : RedisLaws d.conn) (up : IsUp d.conn) where
  -- The stored count, or none.
  get_count-law :
      (ts : List Task) (s : S d)
      → length ts < 2 ^ 63
      → CountAgrees ts (data_of d laws s)
      → Quiet d laws s (get_count d s).1
        × (((get_count d s).0 ≡ ok (pos (length ts)))
            ⊎ ((get_count d s).0 ≡ err (sentinel redis_nil)))
  unfolding get_count int64_result
  get_count-law ts s fits agrees =
      let (quiet, outcome) = call-get d laws up count_key s in
      (
        quiet,
        elim outcome [
          | inl (v, there, e) ↦ inl (rw e (stored_count ts v fits (agrees v there)))
          | inr e ↦ inr (rw e refl)
        ],
      )

  -- What a read promises while the lock is held.
  abbrev ServesHeld : String → S d → Result ℤ × S d → Type 0
  ServesHeld token s (r, s') =
      Reads (ok (pos (length (table d impl laws s)))) (table d impl laws s) r (table d impl laws s')
      × impl.IsSound s'.below
      × Held d laws up (table d impl laws s') (table d impl laws s') token s'

  -- The count of the table is stored while the lock is held.
  store_count-Held :
      (token : String) (s s1 s2 : S d)
      → impl.IsSound s1.below
      → Held d laws up (table d impl laws s1) (table d impl laws s1) token s1
      → table d impl laws s1 ≡ table d impl laws s
      → Puts d laws count_key (text (format_int (pos (length (table d impl laws s))))) s1 s2
      → ServesHeld token s (ok (pos (length (table d impl laws s))), s2)
  store_count-Held token s s1 s2 sound held same (aside, put) =
      let same2 : table d impl laws s2 ≡ table d impl laws s1 = ap impl.live aside.below in
      let put1 =
        subst
          (λ ts.
            HasPut count_key (text (format_int (pos (length ts)))) (data_of d laws s1)
              (data_of d laws s2))
          (sym same) put in
      let coherent = IsCoherent-store_count d.random (without_lock-HasPut put1) held.rest in
      (
        record { answer = answered refl; kept = same2 ∙ same },
        subst impl.IsSound (sym aside.below) sound,
        record {
          rest =
              subst
                (λ n.
                  IsCoherent d.random (table d impl laws s2) (table d impl laws s2) n
                    (without_lock (data_of d laws s2)))
                (sym aside.drawn)
                (subst (λ ts. IsCoherent d.random ts ts s1.drawn (without_lock (data_of d laws s2)))
                  (sym same2) coherent);
          own = λ w e.
              held.own w (not_put put count_lock_key w (λ e'. fixed_keys_differ.2 (sym e')) e);
        },
      )

  fill_count-law :
      (token : String) (s : S d)
      → impl.IsSound s.below
      → Held d laws up (table d impl laws s) (table d impl laws s) token s
      → ServesHeld token s (fill_count d s)
  unfolding fill_count ask
  fill_count-law token s sound held =
      let (reads, below) = impl.count_law s.below sound in
      let b = (d.next.count s.below).1 in
      let s1 = record s { below = b } in
      let held1 =
        subst (λ ts. Held d laws up ts ts token s1) (sym reads.kept)
          (record { rest = held.rest; own = held.own }) in
      elim (Result-cases (d.next.count s.below).0) [
        | inl (n, e) ↦
            let counted = Answers-ok reads.answer e in
            let e' = e ∙ ap ok counted in
            rw (e', fill_count)
              (store_count-Held token s s1 _ below held1 reads.kept (
                set-Puts d laws up "set_count" none count_key
                  (text (format_int (pos (length (table d impl laws s))))) d.ttl s1))
        | inr (x, e) ↦
            rw (e, fill_count)
              (
                record {
                  answer = subst (Answers (ok (pos (length (table d impl laws s))))) e reads.answer;
                  kept = reads.kept;
                },
                below,
                held1,
              )
      ]

  recheck_count-law :
      (token : String) (s : S d)
      → impl.IsSound s.below
      → Held d laws up (table d impl laws s) (table d impl laws s) token s
      → ServesHeld token s (recheck_count d s)
  unfolding recheck_count is
  recheck_count-law token s sound held =
      let s1 = (get_count d s).1 in
      let (quiet, outcome) =
        get_count-law (table d impl laws s) s (impl.countable s.below sound)
          (Held-counted d laws up s held) in
      let same : table d impl laws s1 ≡ table d impl laws s = ap impl.live quiet.0.below in
      let sound1 = subst impl.IsSound (sym quiet.0.below) sound in
      let held1 =
        subst (λ ts. Held d laws up ts ts token s1) (sym same)
          (Held-Quiet d laws up s s1 quiet held) in
      elim outcome [
        | inl hit ↦
            rw (hit, recheck_count) (record { answer = answered refl; kept = same }, sound1, held1)
        | inr missing ↦
            rw (missing, recheck_count)
              (subst
                (λ ts.
                  Reads (ok (pos (length ts))) ts (fill_count d s1).0
                    (table d impl laws (fill_count d s1).1)
                  × impl.IsSound (fill_count d s1).1.below
                  × Held d laws up (table d impl laws (fill_count d s1).1)
                      (table d impl laws (fill_count d s1).1) token (fill_count d s1).1)
                same (fill_count-law token s1 sound1 held1))
      ]

  -- The release comes last, whatever the count was.
  count_locked-law :
      (token : String) (s : S d)
      → impl.IsSound s.below
      → Held d laws up (table d impl laws s) (table d impl laws s) token s
      → Serves d impl laws (ok (pos (length (table d impl laws s)))) s (count_locked d (ok token) s)
  count_locked-law token s sound held =
      let s1 = (recheck_count d s).1 in
      let (reads, sound1, held1) = recheck_count-law token s sound held in
      let (aside, coherent) = release-Held d laws up token s1 held1 in
      let (same, sound2) =
        IsSound-step d impl laws s1 (release_count_lock d token s1) aside sound1 coherent in
      (record { answer = reads.answer; kept = same ∙ reads.kept }, sound2)

  count_missed-law :
      (s : S d)
      → IsSound d impl laws s
      → Serves d impl laws (ok (pos (length (table d impl laws s)))) s (count_missed d s)
  unfolding count_missed acquire_count_lock draw
  count_missed-law s (sound, coherent) =
      let token = d.random s.drawn in
      let s1 = (draw d s).1 in
      let s2 = (call d (set_lock d token) s1).1 in
      let (e, puts) = attempt-free d laws up d.count_retries token s1 coherent.unlocked in
      let held = Puts-Held d laws up token s1 s2 (IsCoherent-draw d.random coherent) puts in
      let same : table d impl laws s2 ≡ table d impl laws s = ap impl.live puts.0.below in
      rw (e, count_missed)
        (Serves-Quiet d impl laws (λ ts. ok (pos (length ts))) s s2 (count_locked d (ok token) s2)
          same
          (count_locked-law token s2 (subst impl.IsSound (sym puts.0.below) sound)
            (subst (λ ts. Held d laws up ts ts token s2) (sym same) held)))

  pub count-law :
      (s : S d)
      → IsSound d impl laws s
      → Serves d impl laws (ok (pos (length (table d impl laws s)))) s (count d s)
  unfolding count is
  count-law s (sound, coherent) =
      let s1 = (get_count d s).1 in
      let (quiet, outcome) =
        get_count-law (table d impl laws s) s (impl.countable s.below sound) coherent.counted in
      let (same, sound1) = IsSound-Quiet d impl laws s s1 quiet (sound, coherent) in
      elim outcome [
        | inl hit ↦ rw (hit, count) (record { answer = answered refl; kept = same }, sound1)
        | inr missing ↦
            rw (missing, count)
              (Serves-Quiet d impl laws (λ ts. ok (pos (length ts))) s s1 (count_missed d s1) same
                (count_missed-law s1 sound1))
      ]
