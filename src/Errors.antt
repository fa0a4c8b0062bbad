-- ===== src/Errors.antt =====
-- Errors as values: entity/errors.go, and the parts of Go's errors and fmt that wrap and test them.
-- A function that returns `(T, error)` is an action on the state that returns a `Result`.
use graph_code_challenge.Prelude.{
  Option, ◌||◌, some, none, String, ◌≡◌, refl, Bool, true, false, ◌⊎◌, inl, inr,
}
use Prim.Native.String.{◌++◌}

-- The error variables that the program compares with: its own, and those of the libraries it calls.
pub data Sentinel : Type 0 where
  not_found validation : Sentinel
  no_rows redis_nil deadline_exceeded : Sentinel
  server_closed no_change nil_version not_exist : Sentinel

Sentinel-discrete : Discrete Sentinel
Sentinel-discrete = hlevel

abbrev pub same : Sentinel → Sentinel → Bool
same not_found not_found = true
same validation validation = true
same no_rows no_rows = true
same redis_nil redis_nil = true
same deadline_exceeded deadline_exceeded = true
same server_closed server_closed = true
same no_change no_change = true
same nil_version nil_version = true
same not_exist not_exist = true
same _ _ = false

-- `wrapped p e` is `fmt.Errorf(p + "%w", e)`; `plain` is an error that wraps nothing and that the
-- program compares with nothing, such as a driver's; `joined` is what `errors.Join` makes of two.
pub data Error : Type 0 where
  sentinel : Sentinel → Error
  plain : String → Error
  wrapped : String → Error → Error
  joined : Error → Error → Error

-- `errors.Is(e, target)`
unfoldable pub is : Error → Sentinel → Bool
is (sentinel s) target = same s target
is (plain _) target = false
is (wrapped _ e) target = is e target
is (joined e f) target = is e target || is f target

sentinel_text : Sentinel → String
sentinel_text not_found = "not found"
sentinel_text validation = "validation failed"
sentinel_text no_rows = "no rows in result set"
sentinel_text redis_nil = "redis: nil"
sentinel_text deadline_exceeded = "context deadline exceeded"
sentinel_text server_closed = "http: Server closed"
sentinel_text no_change = "no change"
sentinel_text nil_version = "no migration"
sentinel_text not_exist = "file does not exist"

-- `e.Error()`
unfoldable error_text : Error → String
unfolding sentinel_text
error_text (sentinel s) = sentinel_text s
error_text (plain t) = t
error_text (wrapped p e) = p ++ error_text e
error_text (joined e f) = error_text e ++ "\n" ++ error_text f

-- `errors.Join(run, e)`, where `e` is not nil and `run` may be.
abbrev pub join_error : Option Error → Error → Error
join_error none e = e
join_error (some run) e = joined run e

pub data Result {ℓ} (A : Type ℓ) : Type ℓ where
  ok : A → Result A
  err : Error → Result A

abbrev pub wrap_error {ℓ} : {A : Type ℓ} → String → Result A → Result A
wrap_error p (ok a) = ok a
wrap_error p (err e) = err (wrapped p e)

abbrev pub map_ok {ℓ κ} : {A : Type ℓ} {B : Type κ} → (A → B) → Result A → Result B
map_ok f (ok a) = ok (f a)
map_ok f (err e) = err e

pub Result-cases {ℓ} :
    {A : Type ℓ} (r : Result A) → ((a : A) × (r ≡ ok a)) ⊎ ((e : Error) × (r ≡ err e))
Result-cases (ok a) = inl (a, refl)
Result-cases (err e) = inr (e, refl)
