-- ===== src/Cache/Coherence/Writes.antt =====
-- `Create`, `Update` and `Delete` of the decorator over a coherent cache.
use graph_code_challenge.Cache.Keys.{task_key}
use graph_code_challenge.Cache.Effects.{data_of, del-Drops}
use graph_code_challenge.Cache.Count.{invalidate_count}
use graph_code_challenge.Cache.Coherence.Retire.{
  Settled, invalidate_count-Settled, retire_lists-Settled,
}
use graph_code_challenge.Cache.Coherence.Tables.{
  TasksAgree-evicted, delete_spec-err, update_spec-err, length-update_spec, delete_spec-Elsewhere,
  update_spec-Elsewhere, Elsewhere, find-insert-new,
}
use graph_code_challenge.Param.{UpdateTaskRequest}
use graph_code_challenge.Repository.Tasks.{update_spec, delete_spec, find}
use graph_code_challenge.Cache.Coherence.{
  IsTidy, IsCoherent-left, subst, sym, AreTokens, TasksAgree,
}
use graph_code_challenge.Redis.Laws.{IsUp, RedisLaws}
use graph_code_challenge.Repository.Spec.{
  Writes-ok, failed, created, written, Writes, Creates, Implements,
}
use graph_code_challenge.Entity.{Task}
use graph_code_challenge.Cache.Base.{retire_lists, ask, evict, S, Db}
use graph_code_challenge.Errors.{Result-cases, Error, Result, err, ok}
use graph_code_challenge.Prelude.{format_int, length, ℤ, ◌∙◌, ap, ◌≡◌, refl, inr, inl, pos, some}
use graph_code_challenge.Redis.{text, Dataset}
use graph_code_challenge.Cache.{List, create, update, delete}
use graph_code_challenge.Cache.Coherence.Sound.{IsSound, table, IsSound-asked, IsSound-at}

Creates-tasks :
    {task : Task} {ts ts' : List Task} {r : Result Task} (ds : Dataset)
    → Creates task ts r ts'
    → TasksAgree ts ds
    → TasksAgree ts' ds
Creates-tasks {task} {ts} ds (created id' _ new _ after) agrees id v e =
    let (t, there, stored) = agrees id v e in
    (t, ap (find id) after ∙ find-insert-new (record task { id = id' }) ts id new there, stored)
Creates-tasks ds (failed x _ _ after) agrees id v e =
    let (t, there, stored) = agrees id v e in (t, ap (find id) after ∙ there, stored)

Creates-err :
    {task : Task} {ts ts' : List Task} {x : Error} → Creates task ts (err x) ts' → ts' ≡ ts
Creates-err (created id _ _ e _) = cc
Creates-err (failed x _ _ after) = after

Writes-err :
    {A : Type 0} {expected : Result A × List Task} {ts ts' : List Task} {x : Error}
    → Writes expected ts (err x) ts'
    → (expected.0 ≡ err x → expected.1 ≡ ts)
    → ts' ≡ ts
Writes-err (written e after) h = after ∙ h (sym e)
Writes-err (failed x _ _ after) h = after

module _ (d : Db) (impl : Implements d.next) (laws : RedisLaws d.conn) (tokens : AreTokens d.random)
    (up : IsUp d.conn) where
  abbrev pub CreatesSound : Task → S d → Result Task × S d → Type 0
  CreatesSound task s (r, s') =
      Creates task (table d impl laws s) r (table d impl laws s') × IsSound d impl laws s'

  abbrev pub WritesSound : {A : Type 0} → Result A × List Task → S d → Result A × S d → Type 0
  WritesSound expected s (r, s') =
      Writes expected (table d impl laws s) r (table d impl laws s') × IsSound d impl laws s'

  pub create-law :
      (task : Task) (s : S d) → IsSound d impl laws s → CreatesSound task s (create d task s)
  unfolding create ask
  create-law task s sound =
      let (creates, below) = impl.create_law task s.below sound.0 in
      let b = (d.next.create task s.below).1 in
      let s1 = record s { below = b } in
      elim (Result-cases (d.next.create task s.below).0) [
        | inl (t, e) ↦
            let retired =
              retire_lists-Settled d laws up tokens (impl.live b) (table d impl laws s) s1
                (Creates-tasks (data_of d laws s) creates sound.1.tasks) sound.1.counted
                sound.1.tidy sound.1.unlocked in
            let s2 = retire_lists d s1 in
            let settled =
              invalidate_count-Settled d laws up (impl.live b) (table d impl laws s) (impl.live b)
                s2 retired.coherent in
            let (at, sound3) =
              IsSound-at d impl laws (invalidate_count d s2) b (settled.below ∙ retired.below) below
                settled.coherent in
            rw (e, create)
              (
                subst (Creates task (table d impl laws s) (ok t)) (sym at)
                    (subst (λ r. Creates task (table d impl laws s) r (impl.live b)) e creates),
                sound3,
              )
        | inr (x, e) ↦
            let refused =
              subst (λ r. Creates task (table d impl laws s) r (impl.live b)) e creates in
            rw (e, create)
              (refused, IsSound-asked d impl laws s b (Creates-err refused) below sound)
      ]

  -- The task's own key is gone, and the lists are retired.
  evict_retire-Settled :
      (id : ℤ) (us : List Task) (s : S d) (b : d.next.State)
      → IsSound d impl laws s
      → Elsewhere id (table d impl laws s) (impl.live b)
      → length us ≡ length (table d impl laws s)
      → Settled d laws up
          (impl.live b)
          us
          (record s { below = b })
          (retire_lists d (evict d id (record s { below = b })))
  unfolding evict
  evict_retire-Settled id us s b (sound, coherent) elsewhere same =
      let s1 = record s { below = b } in
      let s2 = evict d id s1 in
      let ((aside, kept), free) =
        del-Drops d laws up "delete" (some (task_key id)) (task_key id) s1 in
      let left = IsCoherent-left d.random kept coherent in
      let retired =
        retire_lists-Settled d laws up tokens (impl.live b) us s2
          (TasksAgree-evicted (table d impl laws s) (impl.live b) id elsewhere kept free
            coherent.tasks)
          (λ v e. left.counted v e ∙ ap (λ n. text (format_int (pos n))) (sym same))
          (subst (λ n. IsTidy d.random n (data_of d laws s2)) (sym aside.drawn) left.tidy)
          left.unlocked in
      record { below = retired.below ∙ aside.below; coherent = retired.coherent }

  pub update-law :
      (req : UpdateTaskRequest) (s : S d)
      → IsSound d impl laws s
      → WritesSound (update_spec req (table d impl laws s)) s (update d req s)
  unfolding update ask
  update-law req s sound =
      let ts = table d impl laws s in
      let (writes, below) = impl.update_law req s.below sound.0 in
      let b = (d.next.update req s.below).1 in
      let s1 = record s { below = b } in
      elim (Result-cases (d.next.update req s.below).0) [
        | inl (t, e) ↦
            let now : impl.live b ≡ (update_spec req ts).1 = (Writes-ok writes e).1 in
            let settled =
              evict_retire-Settled req.id (impl.live b) s b sound
                (λ id' other. ap (find id') now ∙ update_spec-Elsewhere req ts id' other)
                (ap length now ∙ length-update_spec req ts) in
            let (at, sound3) =
              IsSound-at d impl laws (retire_lists d (evict d req.id s1)) b settled.below below
                settled.coherent in
            rw (e, update)
              (
                subst (Writes (update_spec req ts) ts (ok t)) (sym at)
                    (subst (λ r. Writes (update_spec req ts) ts r (impl.live b)) e writes),
                sound3,
              )
        | inr (x, e) ↦
            let refused = subst (λ r. Writes (update_spec req ts) ts r (impl.live b)) e writes in
            rw (e, update)
              (
                refused,
                IsSound-asked d impl laws s b (Writes-err refused (update_spec-err req ts)) below
                    sound,
              )
      ]

  pub delete-law :
      (id : ℤ) (s : S d)
      → IsSound d impl laws s
      → WritesSound (delete_spec id (table d impl laws s)) s (delete d id s)
  unfolding delete ask
  delete-law id s sound =
      let ts = table d impl laws s in
      let (writes, below) = impl.delete_law id s.below sound.0 in
      let b = (d.next.delete id s.below).1 in
      let s1 = record s { below = b } in
      elim (Result-cases (d.next.delete id s.below).0) [
        | inl (t, e) ↦
            let now : impl.live b ≡ (delete_spec id ts).1 = (Writes-ok writes e).1 in
            let retired =
              evict_retire-Settled id ts s b sound
                (λ id' other. ap (find id') now ∙ delete_spec-Elsewhere id ts id' other) refl in
            let s2 = retire_lists d (evict d id s1) in
            let settled =
              invalidate_count-Settled d laws up (impl.live b) ts (impl.live b) s2
                retired.coherent in
            let (at, sound3) =
              IsSound-at d impl laws (invalidate_count d s2) b (settled.below ∙ retired.below) below
                settled.coherent in
            rw (e, delete)
              (
                subst (Writes (delete_spec id ts) ts (ok tt)) (sym at)
                    (subst (λ r. Writes (delete_spec id ts) ts r (impl.live b)) e writes),
                sound3,
              )
        | inr (x, e) ↦
            let refused = subst (λ r. Writes (delete_spec id ts) ts r (impl.live b)) e writes in
            rw (e, delete)
              (
                refused,
                IsSound-asked d impl laws s b (Writes-err refused (delete_spec-err id ts)) below
                    sound,
              )
      ]
