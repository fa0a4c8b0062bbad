-- ===== src/Migrate/Closes.antt =====
-- The database's handle is closed on every way through the migration command.
use graph_code_challenge.Resources.{Call, IsBalanced}
use graph_code_challenge.Prelude.{
  subst, ◌++◌, Option-cases, [], ◌∙◌, ◌==◌, Bool-cases, ◌≡◌, refl, inr, inl, suc, zero, false, true,
  some, none, Option, String, Bool, ℕ, List,
}
use graph_code_challenge.Errors.{Result, err, ok, no_change, is, Result-cases, Error}
use graph_code_challenge.Migrate.{
  with_dsn, new_engine, released, choose_dsn, connect_database, ◌∷◌, database_handle, with_migrator,
  acquired, print_reported, with_call, new_migrator, run, close_migrator, migrate_version,
  has_no_version, show_usage, Engine, Session, migrate_up, migrate_down, report_version,
  after_change, up_command, down_command, run_command, print_version, print,
}

-- What `migrator.New` leaves: an error and no open handle, or a handle that is open.
data Opens (before : List Call) (r : Result (Unit {0})) (after : List Call) : Type 0 where
  failed_early : (e : Error) → r ≡ err e → after ≡ before → Opens before r after
  failed_late :
      (e : Error)
      → r ≡ err e
      → after ≡ before ++ (acquired database_handle ∷ []) ++ (released database_handle ∷ [])
      → Opens before r after
  open_now : r ≡ ok tt → after ≡ before ++ (acquired database_handle ∷ []) → Opens before r after

module _ (engine : Engine) where
  print_version-calls :
      (v : ℕ × Bool) (s : Session engine) → (print_version engine v s).calls ≡ s.calls
  print_version-calls (zero, dirty) s = refl
  print_version-calls (suc n, true) s = refl
  print_version-calls (suc n, false) s = refl

  print_reported-calls :
      (r : Result (ℕ × Bool)) (s : Session engine) → (print_reported engine r s).1.calls ≡ s.calls
  print_reported-calls (err e) s = refl
  print_reported-calls (ok v) s = print_version-calls v s

  report_version-calls : (s : Session engine) → (report_version engine s).1.calls ≡ s.calls
  unfolding report_version
  report_version-calls s = print_reported-calls (migrate_version engine s) s

  after_change-calls :
      (a b : String) (r : Option Error × Session engine)
      → (after_change engine a b r).1.calls ≡ r.1.calls
  after_change-calls a b (none, s) = report_version-calls (print engine b s)
  after_change-calls a b (some e, s) = elim (Bool-cases (is e no_change)) [
    | inl same ↦ rw same (report_version-calls (print engine a s))
    | inr other ↦ rw other refl
  ]

  migrate_down-calls : (s : Session engine) → (migrate_down engine s).1.calls ≡ s.calls
  unfolding migrate_down
  migrate_down-calls s = elim (Bool-cases (has_no_version engine (engine.version s.store))) [
    | inl none_yet ↦ rw none_yet refl
    | inr some_yet ↦ rw some_yet refl
  ]

  run_command-calls :
      (quoted : String → String) (command : String) (s : Session engine)
      → (run_command engine quoted command s).1.calls ≡ s.calls
  unfolding run_command up_command down_command migrate_up show_usage
  run_command-calls quoted command s = elim (Bool-cases (command == "up")) [
    | inl up ↦
        rw up (
          after_change-calls "schema already up to date" "migrations applied" (migrate_up engine s))
    | inr not_up ↦ elim (Bool-cases (command == "down")) [
      | inl down ↦
          rw (not_up, down)
            (after_change-calls "nothing to roll back" "rolled back one migration"
                (migrate_down engine s)
              ∙ migrate_down-calls s)
      | inr not_down ↦ elim (Bool-cases (command == "version")) [
        | inl version ↦ rw (not_up, not_down, version) (report_version-calls s)
        | inr other ↦ rw (not_up, not_down, other) refl
      ]
    ]
  ]

  connect_database-Opens :
      (dsn : String) (s : Session engine)
      → let s' = with_call engine (acquired database_handle) s in
        Opens s.calls (connect_database engine dsn s').0 (connect_database engine dsn s').1.calls
  connect_database-Opens dsn s = elim (Option-cases (engine.ping_database dsn)) [
    | inr (e, ping) ↦ rw (ping, connect_database) (failed_late _ refl refl)
    | inl pinged ↦ elim (Option-cases engine.init_driver) [
      | inr (e, driver) ↦
          rw (pinged, driver, connect_database, new_engine) (failed_late _ refl refl)
      | inl ready ↦ elim (Option-cases engine.init_engine) [
        | inr (e, init) ↦
            rw (pinged, ready, init, connect_database, new_engine) (failed_late _ refl refl)
        | inl made ↦ rw (pinged, ready, made, connect_database, new_engine) (open_now refl refl)
      ]
    ]
  ]

  new_migrator-Opens :
      (dsn : String) (s : Session engine)
      → Opens s.calls (new_migrator engine dsn s).0 (new_migrator engine dsn s).1.calls
  unfolding new_migrator
  new_migrator-Opens dsn s = elim (Bool-cases (dsn == "")) [
    | inl empty ↦ rw empty (failed_early _ refl refl)
    | inr given ↦ elim (Option-cases engine.read_source) [
      | inr (e, source) ↦ rw (given, source, new_migrator) (failed_early _ refl refl)
      | inl read ↦ elim (Option-cases (engine.open_database dsn)) [
        | inr (e, database) ↦ rw (given, read, database, new_migrator) (failed_early _ refl refl)
        | inl connected ↦ rw (given, read, connected, new_migrator) (connect_database-Opens dsn s)
      ]
    ]
  ]

  with_migrator-calls :
      (quoted : String → String) (command : String) (r : Result (Unit {0})) (s : Session engine)
      → Opens [] r s.calls
      → IsBalanced (with_migrator engine quoted command (r, s)).1.calls
  unfolding close_migrator
  with_migrator-calls quoted command r s (failed_early e h calls) = rw (h, calls) refl
  with_migrator-calls quoted command r s (failed_late e h calls) = rw (h, calls) refl
  with_migrator-calls quoted command r s (open_now h calls) =
      rw (h, run_command-calls quoted command s, calls) refl

  -- However the migration command goes, whatever its arguments and whatever fails: the handle of the
  -- database is closed once if it was opened, and not otherwise.
  pub run-IsBalanced :
      (quoted : String → String) (database : String) (loaded : Result String) (args : List String)
      (s : Session engine)
      → s.calls ≡ []
      → IsBalanced (run engine quoted database loaded args s).1.calls
  unfolding run show_usage
  run-IsBalanced quoted database loaded [] s fresh = rw fresh refl
  run-IsBalanced quoted database loaded (command ∷ args) s fresh =
      elim (Result-cases (choose_dsn engine database loaded)) [
        | inr (e, bad) ↦ rw (bad, with_dsn, fresh) refl
        | inl (dsn, chosen) ↦
            let opens = new_migrator-Opens dsn s in
            rw (chosen, with_dsn)
              (with_migrator-calls quoted command (new_migrator engine dsn s).0
                (new_migrator engine dsn s).1
                (subst
                  (λ c. Opens c (new_migrator engine dsn s).0 (new_migrator engine dsn s).1.calls)
                  fresh opens))
      ]
