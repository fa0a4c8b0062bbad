-- ===== src/Tests/Migrations.antt =====
-- The migration command over an engine with one migration.
use graph_code_challenge.Migrate.Closes.{run-IsBalanced}
use graph_code_challenge.Migrate
use graph_code_challenge.Prelude.{
  Bool, false, true, arith, ◌≡◌, decimal, ◌==◌, if◌then◌else◌, sprintf, ◌∷◌, refl, suc, zero, some,
  none, [], ℕ, Option,
}
use graph_code_challenge.Errors.{wrapped, is, plain, sentinel, err, Error, no_change}
use graph_code_challenge.Resources.{IsBalanced}
use graph_code_challenge.Migrate.{Engine, Session, up_command, run}
use graph_code_challenge.Migrate.Laws.{
  Schema, clean, Lowers, Raises, EngineLaws, version_of, told, raised, at_latest, not_raised,
  lowered, not_lowered,
}

abbrev raise_from : ℕ → Bool → Option Error × Schema
raise_from v true = (some (plain "Dirty database version"), record { version = v; is_dirty = true })
raise_from zero false = (none, clean 1)
raise_from (suc zero) false = (some (sentinel no_change), clean 1)
raise_from (suc (suc n)) false = (some (plain "no migration found"), clean (suc (suc n)))

abbrev raise_to_one : Schema → Option Error × Schema
raise_to_one s = raise_from s.version s.is_dirty

abbrev lower_from : ℕ → Bool → Option Error × Schema
lower_from v true = (some (plain "Dirty database version"), record { version = v; is_dirty = true })
lower_from zero false = (some (plain "file does not exist"), clean 0)
lower_from (suc n) false = (none, clean 0)

abbrev step_to_none : Schema → Option Error × Schema
step_to_none s = lower_from s.version s.is_dirty

abbrev one_migration : Engine
one_migration = record {
  State = Schema;
  read_source = none;
  open_database = λ dsn. none;
  ping_database = λ dsn. if dsn == "postgres://down" then some (plain "dial error") else none;
  init_driver = none;
  init_engine = none;
  up = raise_to_one;
  step_down = step_to_none;
  version = λ s. version_of s.version s.is_dirty;
}

raise_from-Raises :
    (v : ℕ) (dirty : Bool)
    → Raises 1
        (record { version = v; is_dirty = dirty })
        (raise_from v dirty).0
        (raise_from v dirty).1
unfolding is
raise_from-Raises v true =
    not_raised (plain "Dirty database version") refl
      (record { unlike_no_change = refl; unlike_nil_version = refl })
raise_from-Raises zero false = raised refl refl (λ e. absurd (omega arith)) refl
raise_from-Raises (suc zero) false = at_latest refl refl refl
raise_from-Raises (suc (suc n)) false =
    not_raised (plain "no migration found") refl
      (record { unlike_no_change = refl; unlike_nil_version = refl })

lower_from-Lowers :
    (v : ℕ) (dirty : Bool)
    → Lowers 0
        (record { version = v; is_dirty = dirty })
        (lower_from v dirty).0
        (lower_from v dirty).1
unfolding is
lower_from-Lowers v true =
    not_lowered (plain "Dirty database version") refl
      (record { unlike_no_change = refl; unlike_nil_version = refl })
lower_from-Lowers zero false =
    not_lowered (plain "file does not exist") refl
      (record { unlike_no_change = refl; unlike_nil_version = refl })
lower_from-Lowers (suc n) false = lowered refl refl (λ e. absurd (omega arith)) refl

unfoldable one_migration_laws : EngineLaws one_migration
one_migration_laws = record {
  latest = 1;
  previous = λ n. 0;
  applied = λ s. s;
  version_law = λ s. told refl;
  up_law = λ s. raise_from-Raises s.version s.is_dirty;
  down_law = λ s. lower_from-Lowers s.version s.is_dirty;
}

abbrev at_version_one : Session one_migration
at_version_one = record { store = clean 1; calls = []; printed = []; usage_shown = 0 }

abbrev after_up : Session one_migration
after_up = record at_version_one { printed = "schema already up to date" ∷ "version: 1" ∷ [] }

abbrev after_down : Session one_migration
after_down = record at_version_one {
  store = clean 0;
  printed = "rolled back one migration" ∷ "version: none applied" ∷ [];
}

abbrev after_report : Session one_migration
after_report = record at_version_one { printed = "version: 1" ∷ [] }

abbrev dirty_at_one : Session one_migration
dirty_at_one = record at_version_one { store = record { version = 1; is_dirty = true } }

-- A dirty schema is reported, and `up` fails.
dirty_tests :
    ((Migrate.report_version one_migration dirty_at_one).1.printed
      ≡ "version: 1" ∷ "WARNING: schema is dirty — a migration failed partway."
        ∷ "Repair the database by hand, then clear the dirty flag in schema_migrations." ∷ [])
    × ((up_command one_migration dirty_at_one).0
        ≡ some (wrapped "migrator: up: " (plain "Dirty database version")))
unfolding Migrate.report_version Migrate.migrate_version Migrate.migrate_up up_command is sprintf
    decimal
dirty_tests = (refl, refl)

run-IsBalanced_example :
    IsBalanced
      (run one_migration
        (λ c. c)
        "postgres://down"
        (err (plain "unused"))
        ("up" ∷ [])
        at_version_one).1.calls
run-IsBalanced_example =
    run-IsBalanced one_migration (λ c. c) "postgres://down" (err (plain "unused")) ("up" ∷ [])
      at_version_one refl
