-- ===== src/Service/Errors.antt =====
-- Wrapping an error with `%w` keeps what `errors.Is` says of it.
use graph_code_challenge.Exec.{◌>>=◌, wrapping, pure, continue, Exec}
use graph_code_challenge.Prelude.{◌∙◌, sym, ◌≡◌, refl, ap, String}
use graph_code_challenge.Errors.{err, ok, wrapped, Error, Result, is, wrap_error, map_ok}
use graph_code_challenge.Repository.Spec.{Answers, answered, failed, IsInternal}

-- A wrapped internal failure is an internal failure.
pub wrapped-IsInternal : (p : String) (e : Error) → IsInternal e → IsInternal (wrapped p e)
unfolding is
wrapped-IsInternal p e h = h

pub Answers-map {ℓ κ} :
    {A : Type ℓ} {B : Type κ} (p : String) (f : A → B) {expected r : Result A}
    → Answers expected r
    → Answers (wrap_error p (map_ok f expected)) (wrap_error p (map_ok f r))
Answers-map p f (answered e) = answered (ap (λ r. wrap_error p (map_ok f r)) e)
Answers-map p f (failed e eq h) =
    failed (wrapped p e) (ap (λ r. wrap_error p (map_ok f r)) eq) (wrapped-IsInternal p e h)

continue-pure_map {ℓ} :
    {S A B : Type ℓ} (p : String) (f : A → B) (r : Result A) (s : S)
    → continue (wrap_error p r) (λ a. pure (f a)) s ≡ (wrap_error p (map_ok f r), s)
continue-pure_map p f (ok a) s = refl
continue-pure_map p f (err e) s = refl

-- A method that wraps its callee's error and maps its result.
pub wrapping-map {ℓ} :
    {S A B : Type ℓ} (p : String) (f : A → B) (m : Exec S A) (s : S)
    → (wrapping p m >>= λ a. pure (f a)) s ≡ (wrap_error p (map_ok f (m s).0), (m s).1)
wrapping-map p f m s = let (r, s') = m s in continue-pure_map p f r s'

map_ok-eq-ok {ℓ} :
    {A B : Type ℓ} (p : String) (f : A → B) (r : Result A) {b : B}
    → wrap_error p (map_ok f r) ≡ ok b
    → (a : A) × (r ≡ ok a) × (f a ≡ b)
map_ok-eq-ok p f (ok a) e = (a, refl, cc)
map_ok-eq-ok p f (err x) e = cc

-- Inversion of a method that succeeded.
pub wrapping-map-eq-ok {ℓ} :
    {S A B : Type ℓ} (p : String) (f : A → B) (m : Exec S A) (s : S) {b : B} {s' : S}
    → (wrapping p m >>= λ a. pure (f a)) s ≡ (ok b, s')
    → (a : A) × ((m s).0 ≡ ok a) × (f a ≡ b) × ((m s).1 ≡ s')
wrapping-map-eq-ok p f m s e =
    let split = sym (wrapping-map p f m s) ∙ e in
    let (a, here, same) = map_ok-eq-ok p f (m s).0 (λ i. (split i).0) in
    (a, here, same, λ i. (split i).1)
