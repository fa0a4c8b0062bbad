-- ===== src/Exec.antt =====
-- Methods that change a state and return `(T, error)`: actions from the state to the result and the
-- next state. What was written before an error stays written.
use graph_code_challenge.Prelude.{String}
use graph_code_challenge.Errors.{Error, Result, ok, err, wrap_error}

abbrev pub Exec {ℓ} : Type ℓ → Type ℓ → Type ℓ
Exec S A = S → Result A × S

module _ {ℓ} {S A : Type ℓ} where
  abbrev pub pure : A → Exec S A
  pure a s = (ok a, s)

  abbrev raise : Error → Exec S A
  raise e s = (err e, s)

  -- `if err != nil { return …, fmt.Errorf(p + "%w", err) }`
  abbrev pub wrapping : String → Exec S A → Exec S A
  wrapping p m s = let (r, s') = m s in (wrap_error p r, s')

module _ {ℓ} {S A B : Type ℓ} where
  abbrev pub continue : Result A → (A → Exec S B) → Exec S B
  continue (ok a) f s = f a s
  continue (err e) f s = (err e, s)

  infixl 10 ◌>>=◌ ◌>>◌
  abbrev pub ◌>>=◌ : Exec S A → (A → Exec S B) → Exec S B
  ◌>>=◌ m f s = let (r, s') = m s in continue r f s'

  abbrev pub ◌>>◌ : Exec S A → Exec S B → Exec S B
  m >> n = m >>= λ _. n
