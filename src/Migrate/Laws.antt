-- ===== src/Migrate/Laws.antt =====
-- What golang-migrate documents and the migration command relies on. A migration that fails partway leaves
-- the database dirty, and no other is applied until that has been cleared by hand.
use graph_code_challenge.Prelude.{◌≡◌, ◌≢◌, suc, zero, false, some, none, ℕ, Bool, Option}
use graph_code_challenge.Errors.{is, Result, sentinel, err, ok, Error, no_change, nil_version}
use graph_code_challenge.Migrate.{Engine}

-- An error of the engine that is neither "no change" nor "no migration".
pub record IsEngineError (e : Error) : Type 0 where
  pub unlike_no_change : is e no_change ≡ false
  pub unlike_nil_version : is e nil_version ≡ false

-- The version that is applied, and whether it is dirty.
pub record Schema : Type 0 where
  pub version : ℕ
  pub is_dirty : Bool

-- `Version`: an error if no migration is applied.
abbrev pub version_of : ℕ → Bool → Result (ℕ × Bool)
version_of zero dirty = err (sentinel nil_version)
version_of (suc n) dirty = ok (suc n, dirty)

pub data Tells (schema : Schema) (r : Result (ℕ × Bool)) : Type 0 where
  told : r ≡ version_of schema.version schema.is_dirty → Tells schema r
  untold : (e : Error) → r ≡ err e → IsEngineError e → Tells schema r

abbrev pub clean : ℕ → Schema
clean version = record { version = version; is_dirty = false }

-- A failure says nothing of what it leaves.
pub data Raises (latest : ℕ) (before : Schema) (r : Option Error) (after : Schema) : Type 0 where
  raised :
      r ≡ none
      → before.is_dirty ≡ false
      → before.version ≢ latest
      → after ≡ clean latest
      → Raises latest before r after
  at_latest :
      r ≡ some (sentinel no_change)
      → before ≡ clean latest
      → after ≡ before
      → Raises latest before r after
  not_raised : (e : Error) → r ≡ some e → IsEngineError e → Raises latest before r after

-- One step down fails where no migration is applied.
pub data Lowers (target : ℕ) (before : Schema) (r : Option Error) (after : Schema) : Type 0 where
  lowered :
      r ≡ none
      → before.is_dirty ≡ false
      → before.version ≢ 0
      → after ≡ clean target
      → Lowers target before r after
  not_lowered : (e : Error) → r ≡ some e → IsEngineError e → Lowers target before r after

-- The versions are numbers above zero, which stands for none; `previous` is the one below.
pub record EngineLaws (engine : Engine) : Type 0 where
  pub latest : ℕ
  pub previous : ℕ → ℕ
  pub applied : engine.State → Schema
  pub version_law : (s : engine.State) → Tells (applied s) (engine.version s)
  pub up_law :
      (s : engine.State) → Raises latest (applied s) (engine.up s).0 (applied (engine.up s).1)
  pub down_law :
      (s : engine.State)
      → Lowers
          (previous (applied s).version)
          (applied s)
          (engine.step_down s).0
          (applied (engine.step_down s).1)
