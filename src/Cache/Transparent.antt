-- ===== src/Cache/Transparent.antt =====
-- Writes of the decorator, whatever Redis answers.
use graph_code_challenge.Param.{UpdateTaskRequest}
use graph_code_challenge.Entity.{Task}
use graph_code_challenge.Cache.Keys.{task_key}
use graph_code_challenge.Prelude.{
  ◌∙◌, arith, inr, inl, ◌≡◌, ℤ, refl, suc, zero, some, none, Option, ℕ, String,
}
use graph_code_challenge.Errors.{Result, err, ok, Result-cases}
use graph_code_challenge.Cache.Base.{
  Db, S, ask, call, draw, warn_failed, warn, store, evict, retire_lists,
}
use graph_code_challenge.Cache.Count.{
  set_lock, attempt, acquire_count_lock, release_count_lock, invalidate_locked, invalidate_count,
}
use graph_code_challenge.Cache.{update, delete, del, create}
use graph_code_challenge.Redis.{Value, Reply, set}

module _ (d : Db) where
  warn_failed-below :
      (operation : String) (key : Option String) (r : Result Reply) (s : S d)
      → (warn_failed d operation key r s).below ≡ s.below
  unfolding warn
  warn_failed-below operation key (ok r) s = refl
  warn_failed-below operation key (err e) s = refl

  pub store-below : (key : String) (v : Result Value) (s : S d) → (store d key v s).below ≡ s.below
  unfolding store call warn
  store-below key (err e) s = refl
  store-below key (ok v) s =
      warn_failed-below "set" (some key) (d.conn.run (set key v d.ttl) s.cache).0 _

  evict-below : (id : ℤ) (s : S d) → (evict d id s).below ≡ s.below
  unfolding evict call
  evict-below id s = warn_failed-below "delete" _ (d.conn.run (del (task_key id)) s.cache).0 _

  retire_lists-below : (s : S d) → (retire_lists d s).below ≡ s.below
  unfolding retire_lists draw call
  retire_lists-below s = warn_failed-below "retire_lists" none _ _

  release_count_lock-below :
      (token : String) (s : S d) → (release_count_lock d token s).below ≡ s.below
  unfolding release_count_lock call
  release_count_lock-below token s = warn_failed-below "release_count_lock" none _ _

  attempt-below : (n : ℕ) (token : String) (s : S d) → (attempt d n token s).1.below ≡ s.below
  unfolding attempt call
  attempt-below zero token s = ground arith
  attempt-below (suc n) token s =
      let after = (d.conn.run (set_lock d token) s.cache).1 in
      ground (arith, attempt-below n token (record s { cache = d.conn.wait after }))

  invalidate_locked-below :
      (r : Result String) (s : S d) → (invalidate_locked d r s).below ≡ s.below
  unfolding call warn
  invalidate_locked-below (err e) s = refl
  invalidate_locked-below (ok token) s =
      release_count_lock-below token _ ∙ warn_failed-below "invalidate_count" none _ _

  invalidate_count-below : (s : S d) → (invalidate_count d s).below ≡ s.below
  unfolding invalidate_count acquire_count_lock draw
  invalidate_count-below s = invalidate_locked-below _ _ ∙ attempt-below _ _ _

  -- What a caller and the repository below see of a call.
  abbrev pub seen : {A : Type 0} → Result A × S d → Result A × d.next.State
  seen (r, s) = (r, s.below)

  create-seen : (task : Task) (s : S d) → seen (create d task s) ≡ d.next.create task s.below
  unfolding create ask
  create-seen task s = elim (Result-cases (d.next.create task s.below).0) [
    | inl (t, e) ↦ rw (e, create, invalidate_count-below, retire_lists-below)
    | inr (x, e) ↦ rw (e, create) refl
  ]

  update-seen :
      (req : UpdateTaskRequest) (s : S d) → seen (update d req s) ≡ d.next.update req s.below
  unfolding update ask
  update-seen req s = elim (Result-cases (d.next.update req s.below).0) [
    | inl (t, e) ↦ rw (e, update, retire_lists-below, evict-below)
    | inr (x, e) ↦ rw (e, update) refl
  ]

  delete-seen : (id : ℤ) (s : S d) → seen (delete d id s) ≡ d.next.delete id s.below
  unfolding delete ask
  delete-seen id s = elim (Result-cases (d.next.delete id s.below).0) [
    | inl (t, e) ↦ rw (e, delete, invalidate_count-below, retire_lists-below, evict-below)
    | inr (x, e) ↦ rw (e, delete) refl
  ]

  -- A creation, an update and a deletion answer exactly as the repository below does and leave it as
  -- it would, whatever Redis answers to any command.
  pub writes-seen :
      (task : Task) (req : UpdateTaskRequest) (id : ℤ) (s : S d)
      → (seen (create d task s) ≡ d.next.create task s.below)
        × (seen (update d req s) ≡ d.next.update req s.below)
        × (seen (delete d id s) ≡ d.next.delete id s.below)
  writes-seen task req id s = (create-seen task s, update-seen req s, delete-seen id s)
