-- ===== src/Handler/Sent.antt =====
-- A handler's answer to what the service made of a request, against the abstract table.
use graph_code_challenge.Service.Errors.{wrapped-IsInternal, wrapping-map}
use graph_code_challenge.Handler.Table.{replied}
use graph_code_challenge.Exec.{pure, ◌>>=◌, wrapping, Exec}
use graph_code_challenge.Repository.Spec.{failed, written, answered, Writes, Reads}
use graph_code_challenge.Entity.{Task}
use graph_code_challenge.Handler.{
  msg_internal, send, write_message, ℕ, Session, write_error, String, TaskService, Response,
}
use graph_code_challenge.Errors.{map_ok, wrap_error, Error, not_found, is, Result, wrapped, err, ok}
use graph_code_challenge.Prelude.{◌∷◌, ◌++◌, ◌≡◌, List, refl, true, []}

-- The answer and the table are those that are expected, and nothing is logged; or the answer is status
-- 500, its error is logged, and the table is as it was.
pub data Outcome {A : Type 0} (expected : Response A × List Task) (before : List Task)
    (logged : List Error) (r : Response A) (after : List Task) (entries : List Error) : Type 0 where
  as_table :
      r ≡ expected.0
      → after ≡ expected.1
      → entries ≡ logged
      → Outcome expected before logged r after entries
  broken :
      (e : Error)
      → r ≡ write_message 500 msg_internal
      → after ≡ before
      → entries ≡ logged ++ e ∷ []
      → Outcome expected before logged r after entries

-- The errors of the table are those of a missing task.
abbrev pub IsTold : {A : Type 0} → Result A → Type 0
IsTold (ok a) = Unit
IsTold (err e) = is e not_found ≡ true

pub Reads-Writes :
    {A : Type 0} {expected r : Result A} {before after : List Task}
    → Reads expected before r after
    → Writes (expected, before) before r after
Reads-Writes reads = elim reads.answer [
  | answered e ↦ written e reads.kept
  | failed x e i ↦ failed x e i reads.kept
]

-- A method of the service that wraps its callee's error does to the table what the callee does.
pub wrapping-Writes :
    {S A B : Type 0} (live : S → List Task) (p : String) (f : A → B) (m : Exec S A) (s : S)
    {expected : Result A × List Task} {before : List Task}
    → Writes expected before (m s).0 (live (m s).1)
    → let outcome = (wrapping p m >>= λ a. pure (f a)) s in
      Writes (wrap_error p (map_ok f expected.0), expected.1) before outcome.0 (live outcome.1)
wrapping-Writes live p f m s (written e a) = rw (wrapping-map p f m s) (written (rw e refl) a)
wrapping-Writes live p f m s (failed x e i a) =
    rw (wrapping-map p f m s) (failed (wrapped p x) (rw e refl) (wrapped-IsInternal p x i) a)

module _ (svc : TaskService) (live : svc.State → List Task) where
  -- What a handler did to a session.
  abbrev pub Outcomes :
      {A : Type 0} → Response A × List Task → Session svc → Response A × Session svc → Type 0
  Outcomes expected s (r, s') = Outcome expected (live s.store) s.logged r (live s'.store) s'.logged

  pub send-Outcomes :
      {A : Type 0} (status : ℕ) (expected : Result A × List Task) (r : Result A) (store : svc.State)
      (s : Session svc)
      → IsTold expected.0
      → Writes expected (live s.store) r (live store)
      → Outcomes (replied status expected.0, expected.1) s (send svc status (r, store) s)
  unfolding write_error
  send-Outcomes status (ok a, ts) r store s told (written e after) = rw e (as_table refl after refl)
  send-Outcomes status (err x, ts) r store s told (written e after) =
      rw e (rw told (as_table refl after refl))
  send-Outcomes status expected r store s told (failed x e i after) =
      rw e (rw (i.0, i.1) (broken x refl after refl))
