-- ===== src/Cache/Coherence/Sound.antt =====
-- A state of the decorator is sound when the repository below is and the cache agrees with its table.
use graph_code_challenge.Cache.Coherence.{IsCoherent-left, sym, IsCoherent}
use graph_code_challenge.Entity.{Task}
use graph_code_challenge.Cache.Effects.{Aside, data_of, Quiet}
use graph_code_challenge.Errors.{ok, Result}
use graph_code_challenge.Prelude.{◌∙◌, subst, ap, ◌≡◌, List}
use graph_code_challenge.Redis.Laws.{RedisLaws}
use graph_code_challenge.Repository.Spec.{failed, answered, Answers, Reads, Implements}
use graph_code_challenge.Cache.Base.{S, Db}

pub Answers-ok : {A : Type 0} {a b : A} {r : Result A} → Answers (ok b) r → r ≡ ok a → a ≡ b
Answers-ok (answered p) e = let q = sym e ∙ p in cc
Answers-ok (failed x p _) e = let q = sym e ∙ p in cc

module _ (d : Db) (impl : Implements d.next) (laws : RedisLaws d.conn) where
  abbrev pub table : S d → List Task
  table s = impl.live s.below

  -- The cache agrees with a table, its count with another one.
  abbrev Agrees : List Task → List Task → S d → Type 0
  Agrees ts us s = IsCoherent d.random ts us s.drawn (data_of d laws s)

  abbrev pub IsSound : S d → Type 0
  IsSound s = impl.IsSound s.below × Agrees (table s) (table s) s

  -- What a read of the decorator promises.
  abbrev pub Serves : {A : Type 0} → Result A → S d → Result A × S d → Type 0
  Serves expected s (r, s') = Reads expected (table s) r (table s') × IsSound s'

  -- A step of the cache alone that keeps it coherent keeps soundness.
  pub IsSound-step :
      (s s' : S d)
      → Aside d laws s s'
      → impl.IsSound s.below
      → IsCoherent d.random (table s) (table s) s.drawn (data_of d laws s')
      → (table s' ≡ table s) × IsSound s'
  IsSound-step s s' aside sound coherent = (
    ap impl.live aside.below,
    (
      subst impl.IsSound (sym aside.below) sound,
      subst (λ b. IsCoherent d.random (impl.live b) (impl.live b) s'.drawn (data_of d laws s'))
          (sym aside.below)
          (subst (λ n. IsCoherent d.random (table s) (table s) n (data_of d laws s'))
            (sym aside.drawn) coherent),
    ),
  )

  -- Keys that vanish do no harm.
  pub IsSound-Quiet :
      (s s' : S d) → Quiet d laws s s' → IsSound s → (table s' ≡ table s) × IsSound s'
  IsSound-Quiet s s' (aside, kept) (sound, coherent) =
      IsSound-step s s' aside sound (IsCoherent-left d.random kept coherent)

  -- A repository's read below, with the cache left alone.
  pub IsSound-asked :
      (s : S d) (b : d.next.State)
      → impl.live b ≡ table s
      → impl.IsSound b
      → IsSound s
      → IsSound (record s { below = b })
  IsSound-asked s b same sound (_, coherent) = (
    sound,
    subst (λ ts. IsCoherent d.random ts ts s.drawn (data_of d laws s)) (sym same) coherent,
  )

  -- So does a read that is answered after them.
  pub Serves-Quiet :
      {A : Type 0} (expected : List Task → Result A) (s s' : S d) (r : Result A × S d)
      → table s' ≡ table s
      → Serves (expected (table s')) s' r
      → Serves (expected (table s)) s r
  Serves-Quiet expected s s' r same serves =
      subst (λ ts. Reads (expected ts) ts r.0 (table r.1) × IsSound r.1) same serves

  -- A state over a repository state, with a cache that agrees with its table.
  pub IsSound-at :
      (s : S d) (b : d.next.State)
      → s.below ≡ b
      → impl.IsSound b
      → IsCoherent d.random (impl.live b) (impl.live b) s.drawn (data_of d laws s)
      → (table s ≡ impl.live b) × IsSound s
  IsSound-at s b at sound coherent = (
    ap impl.live at,
    (
      subst impl.IsSound (sym at) sound,
      subst (λ c. IsCoherent d.random (impl.live c) (impl.live c) s.drawn (data_of d laws s))
          (sym at) coherent,
    ),
  )
