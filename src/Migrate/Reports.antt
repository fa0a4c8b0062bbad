-- ===== src/Migrate/Reports.antt =====
-- What the migration command has done, and printed, when it ends without an error.
use graph_code_challenge.Api.{wrap_some}
use mathlib.Core.List.{append_assoc}
use graph_code_challenge.Migrate.Laws.{Schema, clean}
use graph_code_challenge.Prelude.{
  false, true, eqb, ◌≢◌, if◌then◌else◌, arith, ◌∙◌, sym, ap, ◌∷◌, ◌++◌, decimal, ◌≡◌, sprintf, refl,
  suc, zero, none, [], ℕ, List, String, Option, Bool,
}
use graph_code_challenge.Errors.{Error, is}
use graph_code_challenge.Migrate.{
  after_change, migrate_up, up_command, print, migrate_version, Engine, Session, report_version,
  print_reported, version_or_none,
}
use graph_code_challenge.Migrate.Laws.{
  not_raised, at_latest, raised, EngineLaws, told, untold, Tells, version_of,
}

abbrev pub version_line : ℕ → String
version_line zero = "version: none applied"
version_line (suc n) = sprintf "version: %d" (decimal (suc n) ∷ [])

abbrev pub warning_lines : ℕ → Bool → List String
warning_lines (suc n) true =
    "WARNING: schema is dirty — a migration failed partway."
    ∷ "Repair the database by hand, then clear the dirty flag in schema_migrations." ∷ []
warning_lines _ _ = []

-- What `reportVersion` prints of a schema: a dirty one is followed by a warning and what to do.
abbrev pub version_lines : Schema → List String
version_lines schema = version_line schema.version ∷ warning_lines schema.version schema.is_dirty

-- The command ended without an error: which schema is applied, and what was printed.
pub record Ended (engine : Engine) (laws : EngineLaws engine) (schema : Schema)
    (lines : List String) (s : Session engine) : Type 0 where
  pub at_version : laws.applied s.store ≡ schema
  pub lines_printed : s.printed ≡ lines

module _ (engine : Engine) (laws : EngineLaws engine) where
  print_version-printed :
      (v : ℕ) (dirty : Bool) (s s' : Session engine)
      → print_reported engine (version_or_none engine (version_of v dirty)) s ≡ (none, s')
      → (s'.store ≡ s.store)
        × (s'.printed ≡ s.printed ++ version_lines (record { version = v; is_dirty = dirty }))
  unfolding is
  print_version-printed zero true s s' e = let same = ap (λ r. r.1) e in rw (← same) (refl, refl)
  print_version-printed zero false s s' e = let same = ap (λ r. r.1) e in rw (← same) (refl, refl)
  print_version-printed (suc n) true s s' e =
      let same = ap (λ r. r.1) e in
      let line = version_line (suc n) in
      rw (← same) (
        refl,
        append_assoc (s.printed ++ (line ∷ []))
              ("WARNING: schema is dirty — a migration failed partway." ∷ [])
              ("Repair the database by hand, then clear the dirty flag in schema_migrations." ∷ [])
            ∙ append_assoc s.printed (line ∷ []) (
                "WARNING: schema is dirty — a migration failed partway."
                ∷ "Repair the database by hand, then clear the dirty flag in schema_migrations."
                ∷ []),
      )
  print_version-printed (suc n) false s s' e =
      let same = ap (λ r. r.1) e in rw (← same) (refl, refl)

  report_version-printed :
      (s s' : Session engine)
      → report_version engine s ≡ (none, s')
      → Tells (laws.applied s.store) (engine.version s.store)
      → (s'.store ≡ s.store) × (s'.printed ≡ s.printed ++ version_lines (laws.applied s.store))
  unfolding report_version migrate_version
  report_version-printed s s' e (told same) =
      print_version-printed (laws.applied s.store).version (laws.applied s.store).is_dirty s s'
        (ap (λ r. print_reported engine (version_or_none engine r) s) (sym same) ∙ e)
  report_version-printed s s' e (untold x same other) =
      let failed_now =
        ap (λ r. print_reported engine (version_or_none engine r) s) (sym same) ∙ e in
      let unlike = other.unlike_nil_version in absurd (ground arith)

  -- A line, and then the report of the version.
  line-Ended :
      (line : String) (version : Schema) (lines : List String) (s s' : Session engine)
      → report_version engine (print engine line s) ≡ (none, s')
      → laws.applied s.store ≡ version
      → s.printed ++ (line ∷ []) ++ version_lines version ≡ lines
      → Ended engine laws version lines s'
  line-Ended line version lines s s' e at_it printed =
      let (store, shown) =
        report_version-printed (print engine line s) s' e (laws.version_law s.store) in
      record {
        at_version = ap laws.applied store ∙ at_it;
        lines_printed =
            shown ∙ ap (λ v. s.printed ++ (line ∷ []) ++ version_lines v) at_it ∙ printed;
      }

  abbrev pub up_line : ℕ → String
  up_line before =
      if eqb before laws.latest then "schema already up to date" else "migrations applied"

  up_line_moved : (before : ℕ) → before ≢ laws.latest → up_line before ≡ "migrations applied"
  up_line_moved before moved = ground arith

  up_line_here : (before : ℕ) → before ≡ laws.latest → up_line before ≡ "schema already up to date"
  up_line_here before here = ground arith

  pub up_command-Ended :
      (s s' : Session engine)
      → up_command engine s ≡ (none, s')
      → Ended engine laws
          (clean laws.latest)
          (s.printed
            ++ (up_line (laws.applied s.store).version ∷ [])
            ++ version_lines (clean laws.latest))
          s'
  unfolding up_command migrate_up is
  up_command-Ended s s' e =
      let store = (engine.up s.store).1 in
      let outcome = λ (o : Option Error).
        after_change engine "schema already up to date" "migrations applied"
          (wrap_some "migrator: up: " o, record s { store = store }) in
      let before = (laws.applied s.store).version in
      elim (laws.up_law s.store) [
        | raised r tidy moved at_it ↦
            line-Ended "migrations applied" (clean laws.latest)
              (s.printed ++ (up_line before ∷ []) ++ version_lines (clean laws.latest))
              (record s { store = store }) s' (ap outcome (sym r) ∙ e) at_it
              (ap (λ l. s.printed ++ (l ∷ []) ++ version_lines (clean laws.latest))
                (sym (up_line_moved before moved)))
        | at_latest r here stays ↦
            line-Ended "schema already up to date" (clean laws.latest)
              (s.printed ++ (up_line before ∷ []) ++ version_lines (clean laws.latest))
              (record s { store = store }) s' (ap outcome (sym r) ∙ e) (stays ∙ here)
              (ap (λ l. s.printed ++ (l ∷ []) ++ version_lines (clean laws.latest))
                (sym (up_line_here before (ap (λ (c : Schema). c.version) here))))
        | not_raised x r other ↦
            let failed_now = ap outcome (sym r) ∙ e in
            let unlike = other.unlike_no_change in absurd (ground arith)
      ]

  -- Where no migration is applied, `down` leaves the schema.
  abbrev pub lower : Schema → Schema
  lower before = if eqb before.version 0 then before else clean (laws.previous before.version)

  abbrev pub down_line : ℕ → String
  down_line before = if eqb before 0 then "nothing to roll back" else "rolled back one migration"

  abbrev pub down_lines : Schema → List String → List String
  down_lines before printed =
      printed ++ (down_line before.version ∷ []) ++ version_lines (lower before)
