-- ===== src/Handler/Passed.antt =====
-- What the service answers, passed on by a handler over a repository that keeps its contract.
use graph_code_challenge.Service.Errors.{wrapping-map}
use graph_code_challenge.Param.{UpdateTaskRequest}
use graph_code_challenge.Exec.{pure, ◌>>=◌, wrapping, Exec}
use graph_code_challenge.Repository.Tasks.{replace, patch, find, found}
use graph_code_challenge.Handler.Table.{replied}
use graph_code_challenge.Handler.Sent.{wrapping-Writes, send-Outcomes, as_table, Outcomes, IsTold}
use graph_code_challenge.Entity.{Task}
use graph_code_challenge.Repository.Spec.{Writes, Implements}
use graph_code_challenge.Repository.{Repository}
use graph_code_challenge.Errors.{map_ok, wrap_error, Result, is, err, ok}
use graph_code_challenge.Prelude.{
  ℤ, sym, subst, arith, ◌≡◌, Option-cases, refl, inr, inl, some, none,
}
use graph_code_challenge.Handler.{
  send, task_service, Session, List, Option, ℕ, write_error, Response, String,
}
use graph_code_challenge.Repository.Tasks

pub found-IsTold : (o : Option Task) → IsTold (found o)
unfolding is
found-IsTold none = refl
found-IsTold (some t) = tt

pub update_spec-IsTold :
    (req : UpdateTaskRequest) (ts : List Task) → IsTold (Tasks.update_spec req ts).0
unfolding is
update_spec-IsTold req ts = elim (Option-cases (find req.id ts)) [
  | inl gone ↦ rw (gone, Tasks.update_spec, IsTold) refl
  | inr (t, there) ↦ rw (there, Tasks.update_spec, IsTold) tt
]

pub delete_spec-IsTold : (id : ℤ) (ts : List Task) → IsTold (Tasks.delete_spec id ts).0
unfolding is
delete_spec-IsTold id ts = ground arith

pub wrapped-IsTold :
    {A B : Type 0} (p : String) (f : A → B) (r : Result A)
    → IsTold r
    → IsTold (wrap_error p (map_ok f r))
unfolding is
wrapped-IsTold p f (ok a) h = tt
wrapped-IsTold p f (err e) h = h

pub replied-wrapped :
    {A : Type 0} (status : ℕ) (p : String) (r : Result A)
    → replied status (wrap_error p r) ≡ replied status r
replied-wrapped status p (ok a) = refl
replied-wrapped status p (err e) = refl

pub map_ok-Unit : (r : Result (Unit {0})) → map_ok (λ (_ : Unit {0}). tt) r ≡ r
map_ok-Unit (ok a) = refl
map_ok-Unit (err e) = refl

module _ (repo : Repository) (impl : Implements repo) where
  abbrev pub Does :
      {A : Type 0}
      → Response A × List Task
      → Session (task_service repo)
      → Response A × Session (task_service repo)
      → Type 0
  Does expected s outcome =
      Outcomes (task_service repo) impl.live expected s outcome × impl.IsSound outcome.1.store

  -- A request that is refused leaves everything.
  pub kept :
      {A : Type 0} (r : Response A) (s : Session (task_service repo))
      → impl.IsSound s.store
      → Does (r, impl.live s.store) s (r, s)
  kept r s sound = (as_table refl refl refl, sound)

  -- The state that the service leaves is the session's, whatever is answered.
  pub send-store :
      {A : Type 0} (status : ℕ) (r : Result A) (store : repo.State)
      (s : Session (task_service repo))
      → (send (task_service repo) status (r, store) s).1.store ≡ store
  unfolding write_error
  send-store status (ok a) store s = refl
  send-store status (err e) store s = ground arith

  pub sent :
      {A : Type 0} (status : ℕ) (expected : Result A × List Task) (r : Result A)
      (store : repo.State) (s : Session (task_service repo))
      → IsTold expected.0
      → Writes expected (impl.live s.store) r (impl.live store)
      → impl.IsSound store
      → Does
          (replied status expected.0, expected.1)
          s
          (send (task_service repo) status (r, store) s)
  sent status expected r store s told writes sound = (
    send-Outcomes (task_service repo) impl.live status expected r store s told writes,
    subst impl.IsSound (sym (send-store status r store s)) sound,
  )

  pub wrapped-sent :
      {A B : Type 0} (status : ℕ) (p : String) (f : A → B) (m : Exec repo.State A)
      (s : Session (task_service repo)) (expected : Result A × List Task)
      → IsTold expected.0
      → Writes expected (impl.live s.store) (m s.store).0 (impl.live (m s.store).1)
      → impl.IsSound (m s.store).1
      → Does
          (replied status (map_ok f expected.0), expected.1)
          s
          (send (task_service repo) status ((wrapping p m >>= λ a. pure (f a)) s.store) s)
  wrapped-sent status p f m s expected told writes sound =
      rw (wrapping-map p f m s.store, ← replied-wrapped status p (map_ok f expected.0))
        (sent status (wrap_error p (map_ok f expected.0), expected.1) _ _ s
          (wrapped-IsTold p f expected.0 told)
          (rw (wrapping-map p f m s.store) at (wrapping-Writes impl.live p f m s.store writes))
          sound)

  pub wrapped-store :
      {A B : Type 0} (status : ℕ) (p : String) (f : A → B) (m : Exec repo.State A)
      (s : Session (task_service repo))
      → (send (task_service repo) status ((wrapping p m >>= λ a. pure (f a)) s.store) s).1.store
        ≡ (m s.store).1
  wrapped-store status p f m s = rw (wrapping-map p f m s.store) (send-store status _ _ s)
