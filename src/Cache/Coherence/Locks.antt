-- ===== src/Cache/Coherence/Locks.antt =====
-- The count lock: a cache whose lock is held is judged without the lock.
use graph_code_challenge.Cache.Keys.Distinct.{fixed_keys_differ}
use graph_code_challenge.Entity.{Task}
use graph_code_challenge.Cache.Count.{count_lock_ttl, set_lock, attempt}
use graph_code_challenge.Cache.Effects.{Quiet, release-Drops, set_nx-free, Puts, Aside, data_of}
use graph_code_challenge.Cache.Coherence.{
  CountAgrees, IsCoherent-left, subst, IsCoherent, List, sym, ℕ, not_put,
}
use graph_code_challenge.Redis.Laws.{IsUp, RedisLaws, ◌⊑◌}
use graph_code_challenge.Redis.Effects.{IsFree, HasPut}
use graph_code_challenge.Cache.Base.{call, S, Db}
use graph_code_challenge.Cache.Keys.{count_key, count_lock_key}
use graph_code_challenge.Errors.{ok}
use graph_code_challenge.Prelude.{
  pos, suc, zero, none, ◌∙◌, ap, eq_iff, ◌==◌, Bool-cases, ◌≢◌, ◌≡◌, arith, String, refl, inr, inl,
  some,
}
use graph_code_challenge.Cache.Count.{release_count_lock, attempt}
use graph_code_challenge.Redis.{Value, text, Dataset, drop_key}

abbrev pub without_lock : Dataset → Dataset
without_lock ds = drop_key ds count_lock_key

pub without_lock_left : (ds : Dataset) → without_lock ds ⊑ ds
without_lock_left ds j w e = ground (arith, e)

into_without_lock :
    (ds : Dataset) (j : String) (w : Value)
    → j ≢ count_lock_key
    → ds j ≡ some w
    → without_lock ds j ≡ some w
into_without_lock ds j w other e = elim (Bool-cases (count_lock_key == j)) [
  | inl same ↦ absurd (other (sym ((eq_iff count_lock_key j).0 same)))
  | inr off ↦ rw (off, e) refl
]

out_of_without_lock :
    (ds : Dataset) (j : String) (w : Value)
    → without_lock ds j ≡ some w
    → (j ≢ count_lock_key) × (ds j ≡ some w)
out_of_without_lock ds j w e = elim (Bool-cases (count_lock_key == j)) [
  | inl same ↦ absurd (ground (arith, e, same))
  | inr off ↦ (λ same. ground (arith, off, eq_iff count_lock_key j), ground (arith, e, off))
]

pub without_lock-left : {ds ds' : Dataset} → ds' ⊑ ds → without_lock ds' ⊑ without_lock ds
without_lock-left {ds} {ds'} lost j w e =
    let (other, there) = out_of_without_lock ds' j w e in
    into_without_lock ds j w other (lost j w there)

pub without_lock-HasPut :
    {k : String} {v : Value} {ds ds' : Dataset}
    → HasPut k v ds ds'
    → HasPut k v (without_lock ds) (without_lock ds')
without_lock-HasPut {ds = ds} {ds' = ds'} put j w e =
    let (other, there) = out_of_without_lock ds' j w e in
    elim (put j w there) [
      | inl new ↦ inl new
      | inr (off, old) ↦ inr (off, into_without_lock ds j w other old)
    ]

locking_left :
    {v : Value} {ds ds' : Dataset} → HasPut count_lock_key v ds ds' → without_lock ds' ⊑ ds
locking_left {ds' = ds'} put j w e =
    let (other, there) = out_of_without_lock ds' j w e in not_put put j w other there

unlocking_left : {ds ds' : Dataset} → ds' ⊑ ds → IsFree count_lock_key ds' → ds' ⊑ without_lock ds
unlocking_left {ds} {ds'} lost free j w e = elim (Bool-cases (count_lock_key == j)) [
  | inl same ↦ absurd (free w (ap ds' ((eq_iff count_lock_key j).0 same) ∙ e))
  | inr off ↦ rw (off, lost j w e) refl
]

module _ (d : Db) (laws : RedisLaws d.conn) (up : IsUp d.conn) where
  -- With the lock free the first attempt takes it.
  pub attempt-free :
      (n : ℕ) (token : String) (s : S d)
      → IsFree count_lock_key (data_of d laws s)
      → (attempt d n token s ≡ (ok token, (call d (set_lock d token) s).1))
        × Puts d laws count_lock_key (text token) s (call d (set_lock d token) s).1
  unfolding attempt
  attempt-free zero token s free =
      let (e, puts) = set_nx-free d laws up count_lock_key (text token) count_lock_ttl s free in
      (rw (e, attempt) refl, puts)
  attempt-free (suc n) token s free =
      let (e, puts) = set_nx-free d laws up count_lock_key (text token) count_lock_ttl s free in
      (rw (e, attempt) refl, puts)

  -- The lock is held under a token, or gone, and the rest of the cache agrees with a table.
  pub record Held (ts us : List Task) (token : String) (s : S d) : Type 0 where
    pub rest : IsCoherent d.random ts us s.drawn (without_lock (data_of d laws s))
    pub own : (w : Value) → data_of d laws s count_lock_key ≡ some w → w ≡ text token

  pub Puts-Held :
      {ts us : List Task} (token : String) (s s' : S d)
      → IsCoherent d.random ts us s.drawn (data_of d laws s)
      → Puts d laws count_lock_key (text token) s s'
      → Held ts us token s'
  Puts-Held {ts} {us} token s s' coherent (aside, put) = record {
    rest =
        subst (λ n. IsCoherent d.random ts us n (without_lock (data_of d laws s')))
          (sym aside.drawn) (IsCoherent-left d.random (locking_left put) coherent);
    own = λ w e. elim (put count_lock_key w e) [
      | inl (_, same) ↦ same
      | inr (off, _) ↦ absurd (off refl)
    ];
  }

  pub release-Held :
      {ts us : List Task} (token : String) (s : S d)
      → Held ts us token s
      → Aside d laws s (release_count_lock d token s)
        × IsCoherent d.random ts us s.drawn (data_of d laws (release_count_lock d token s))
  unfolding release_count_lock
  release-Held token s held =
      let ((aside, kept), free) =
        release-Drops d laws up count_lock_key token (pos 0) "release_count_lock" none s held.own in
      (aside, IsCoherent-left d.random (unlocking_left kept free) held.rest)

  -- What vanishes does not change who holds the lock, nor what the rest agrees with.
  pub Held-Quiet :
      {ts us : List Task} {token : String} (s s' : S d)
      → Quiet d laws s s'
      → Held ts us token s
      → Held ts us token s'
  Held-Quiet {ts} {us} s s' (aside, kept) held = record {
    rest =
        subst (λ n. IsCoherent d.random ts us n (without_lock (data_of d laws s')))
          (sym aside.drawn) (IsCoherent-left d.random (without_lock-left kept) held.rest);
    own = λ w e. held.own w (kept count_lock_key w e);
  }

  -- The count that is stored next to the lock agrees with the table.
  pub Held-counted :
      {ts us : List Task} {token : String} (s : S d)
      → Held ts us token s
      → CountAgrees us (data_of d laws s)
  Held-counted s held v e =
      held.rest.counted v (into_without_lock (data_of d laws s) count_key v fixed_keys_differ.2 e)
