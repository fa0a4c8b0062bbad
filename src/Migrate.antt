-- ===== src/Migrate.antt =====
-- internal/migrator/migrator.go and cmd/migrate/main.go: the migrator and its command, over the
-- migration engine of golang-migrate and database/sql, which are parameters.
pub mod Laws
pub mod Closes
pub mod Reports
use Prim.Native.String.{◌∷◌}
use graph_code_challenge.Api.{wrap_some}
use Prim.Native.String as Text
use graph_code_challenge.Prelude.{
  ◌==◌, decimal, ◌∷◌, ◌++◌, sprintf, if◌then◌else◌, suc, zero, false, some, none, [], List, Option,
  String, Bool, ℕ,
}
use graph_code_challenge.Errors.{
  is, Result, plain, wrapped, sentinel, err, ok, Error, no_change, nil_version, join_error,
}
use graph_code_challenge.Resources.{Call, acquired, released, database_handle}

pub record Engine : Type 1 where
  pub State : Type 0
  pub read_source : Option Error
  pub open_database : String → Option Error
  pub ping_database : String → Option Error
  pub init_driver : Option Error
  pub init_engine : Option Error
  pub up : State → Option Error × State
  pub step_down : State → Option Error × State
  pub version : State → Result (ℕ × Bool)

-- What the program acts on: the engine's state, the calls on the database's handle, what it printed,
-- and how often it showed its usage.
pub record Session (engine : Engine) : Type 0 where
  pub store : engine.State
  pub calls : List Call
  pub printed : List String
  pub usage_shown : ℕ

module _ (engine : Engine) where
  -- `sql.Open`
  abbrev pub with_call : Call → Session engine → Session engine
  with_call c s = record s { calls = s.calls ++ (c ∷ []) }

  abbrev pub give_up : {A : Type 0} → String → Error → Session engine → Result A × Session engine
  give_up p e s = (err (wrapped p e), s)

  -- `db.Close()` before the error is returned.
  abbrev pub close_and_give_up :
      {A : Type 0} → String → Error → Session engine → Result A × Session engine
  close_and_give_up p e s = give_up p e (with_call (released database_handle) s)

  abbrev pub new_engine : Session engine → Result (Unit {0}) × Session engine
  new_engine s = elim engine.init_driver [
    | some e ↦ close_and_give_up "migrator: init postgres driver: " e s
    | none ↦ elim engine.init_engine [
      | some e ↦ close_and_give_up "migrator: init migrator: " e s
      | none ↦ (ok tt, s)
    ]
  ]

  abbrev pub connect_database : String → Session engine → Result (Unit {0}) × Session engine
  connect_database dsn s = elim (engine.ping_database dsn) [
    | some e ↦ close_and_give_up "migrator: connect to database: " e s
    | none ↦ new_engine s
  ]

  -- `migrator.New`
  unfoldable pub new_migrator : String → Session engine → Result (Unit {0}) × Session engine
  new_migrator dsn s =
      if dsn == ""
      then (err (plain "migrator: empty database dsn"), s)
      else elim engine.read_source [
        | some e ↦ give_up "migrator: read embedded migrations: " e s
        | none ↦ elim (engine.open_database dsn) [
          | some e ↦ give_up "migrator: open database: " e s
          | none ↦ connect_database dsn (with_call (acquired database_handle) s)
        ]
      ]

  -- `Migrator.Up`
  unfoldable pub migrate_up : Session engine → Option Error × Session engine
  migrate_up s =
      let (e, store) = engine.up s.store in
      (wrap_some "migrator: up: " e, record s { store = store })

  abbrev pub has_no_version : Result (ℕ × Bool) → Bool
  has_no_version (ok v) = false
  has_no_version (err e) = is e nil_version

  -- `Migrator.Down`
  unfoldable pub migrate_down : Session engine → Option Error × Session engine
  migrate_down s =
      let (e, store) = engine.step_down s.store in
      if has_no_version (engine.version s.store)
      then (some (wrapped "migrator: down: " (sentinel no_change)), s)
      else (wrap_some "migrator: down: " e, record s { store = store })

  abbrev pub version_or_none : Result (ℕ × Bool) → Result (ℕ × Bool)
  version_or_none (ok v) = ok v
  version_or_none (err e) =
      if is e nil_version then ok (0, false) else err (wrapped "migrator: version: " e)

  -- `Migrator.Version`
  unfoldable pub migrate_version : Session engine → Result (ℕ × Bool)
  migrate_version s = version_or_none (engine.version s.store)

  -- `Migrator.Close`: golang-migrate closes the handle of the database.
  unfoldable pub close_migrator : Session engine → Session engine
  close_migrator s = with_call (released database_handle) s

  -- `fmt.Println`
  abbrev pub print : String → Session engine → Session engine
  print line s = record s { printed = s.printed ++ (line ∷ []) }

  abbrev pub print_version : ℕ × Bool → Session engine → Session engine
  print_version (zero, dirty) s = print "version: none applied" s
  print_version (suc n, dirty) s =
      let s1 = print (sprintf "version: %d" (decimal (suc n) ∷ [])) s in
      if dirty
      then print "Repair the database by hand, then clear the dirty flag in schema_migrations."
          (print "WARNING: schema is dirty — a migration failed partway." s1)
      else s1

  abbrev pub print_reported : Result (ℕ × Bool) → Session engine → Option Error × Session engine
  print_reported (err e) s = (some e, s)
  print_reported (ok v) s = (none, print_version v s)

  -- `reportVersion`
  unfoldable pub report_version : Session engine → Option Error × Session engine
  unfolding sprintf decimal
  report_version s = print_reported (migrate_version s) s

  -- The `switch` of `up` and `down`, by the lines that they print.
  abbrev pub after_change :
      String → String → Option Error × Session engine → Option Error × Session engine
  after_change unchanged changed (none, s) = report_version (print changed s)
  after_change unchanged changed (some e, s) =
      if is e no_change then report_version (print unchanged s) else (some e, s)

  unfoldable pub up_command : Session engine → Option Error × Session engine
  up_command s = after_change "schema already up to date" "migrations applied" (migrate_up s)

  unfoldable pub down_command : Session engine → Option Error × Session engine
  down_command s = after_change "nothing to roll back" "rolled back one migration" (migrate_down s)

  unfoldable pub show_usage : Session engine → Session engine
  show_usage s = record s { usage_shown = suc s.usage_shown }

  -- `quoted` is what `%q` renders.
  unfoldable pub run_command :
      (String → String) → String → Session engine → Option Error × Session engine
  run_command quoted command s =
      if command == "up"
      then up_command s
      else if command == "down"
      then down_command s
      else if command == "version"
      then report_version s
      else (some (plain (Text.◌++◌ "unknown command " (quoted command))), show_usage s)

  abbrev pub closing : Option Error × Session engine → Option Error × Session engine
  closing (e, s) = (e, close_migrator s)

  abbrev pub with_migrator :
      (String → String)
      → String
      → Result (Unit {0}) × Session engine
      → Option Error × Session engine
  with_migrator quoted command (err e, s) = (some e, s)
  with_migrator quoted command (ok _, s) = closing (run_command quoted command s)

  -- `dsn := *database`, or the URL of the configuration, which is loaded only then.
  abbrev pub choose_dsn : String → Result String → Result String
  choose_dsn database loaded = if database == "" then loaded else ok database

  abbrev pub with_dsn :
      (String → String) → String → Result String → Session engine → Option Error × Session engine
  with_dsn quoted command (err e) s = (some e, s)
  with_dsn quoted command (ok dsn) s = with_migrator quoted command (new_migrator dsn s)

  -- `run`, with the flag `-database`, the remaining arguments, and what `config.Load` gives.
  unfoldable pub run :
      (String → String)
      → String
      → Result String
      → List String
      → Session engine
      → Option Error × Session engine
  run quoted database loaded [] s = (some (plain "no command given"), show_usage s)
  run quoted database loaded (command ∷ args) s =
      with_dsn quoted command (choose_dsn database loaded) s

-- `main`: the exit status.
unfoldable pub exit_status : Option Error → ℕ
exit_status none = 0
exit_status (some e) = 1
