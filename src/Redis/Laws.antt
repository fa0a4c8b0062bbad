-- ===== src/Redis/Laws.antt =====
-- What Redis documents and the program relies on.
use graph_code_challenge.Errors.{Error, err, ok}
use graph_code_challenge.Prelude.{◌⊎◌, String, ◌≡◌, some}
use graph_code_challenge.Redis.{Redis, Command, Reply, Dataset, apply, Value}

-- `d` has lost some keys of `d'`, and holds nothing else.
infix 50 ◌⊑◌
abbrev pub ◌⊑◌ : Dataset → Dataset → Type 0
d ⊑ d' = (k : String) (v : Value) → d k ≡ some v → d' k ≡ some v

pub ⊑_refl : (d : Dataset) → d ⊑ d
⊑_refl d k v h = h

pub ⊑_trans : {a b c : Dataset} → a ⊑ b → b ⊑ c → a ⊑ c
⊑_trans f g k v h = g k v (f k v h)

-- The outcome of a command that was answered: it ran on what was left of the data set.
pub record Ran (c : Command) (before : Dataset) (r : Reply) (after : Dataset) : Type 0 where
  pub at : Dataset
  pub left : at ⊑ before
  pub reply : (apply c at).0 ≡ r
  pub result : after ⊑ (apply c at).1

-- No other client writes. A command that is answered ran as one step, between steps at which keys
-- expire or are evicted. One that failed did not run, or ran and lost its answer.
pub record RedisLaws (redis : Redis) : Type 0 where
  pub dataset : redis.State → Dataset
  pub ran :
      (c : Command) (s : redis.State) (r : Reply)
      → (redis.run c s).0 ≡ ok r
      → Ran c (dataset s) r (dataset (redis.run c s).1)
  pub lost :
      (c : Command) (s : redis.State) (e : Error)
      → (redis.run c s).0 ≡ err e
      → (dataset (redis.run c s).1 ⊑ dataset s)
        ⊎ ((r : Reply) × Ran c (dataset s) r (dataset (redis.run c s).1))
  pub waited : (s : redis.State) → dataset (redis.wait s) ⊑ dataset s

-- Redis is up: every command is answered.
abbrev pub IsUp : Redis → Type 0
IsUp redis = (c : Command) (s : redis.State) → (r : Reply) × ((redis.run c s).0 ≡ ok r)
