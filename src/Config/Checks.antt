-- ===== src/Config/Checks.antt =====
-- Which settings `validate` accepts, and what is read from the environment.
use graph_code_challenge.Strconv.{parse_int}
use graph_code_challenge.Strconv
use graph_code_challenge.Config.{
  is_valid_mode, setting, AppMode, env_app_mode, env_int, validate, Config,
}
use graph_code_challenge.Prelude.{
  ◌∙◌, subst, sym, ◌==◌, Bool-cases, inr, inl, true, eqb_ℤ_iff, eq_iff, arith, ◌⊎◌, ◌↔◌, leb_ℤ, ◌≡◌,
  ◌≤ℤ◌, ltb_ℤ, ◌≢◌, ℤ, pos, false, none, String,
}

abbrev IsPort : ℤ → Type 0
IsPort port = (pos 1 ≤ℤ port) × (port ≤ℤ pos 65535)

pub record IsValidConfig (c : Config) : Type 0 where
  pub database : c.database_url ≢ ""
  pub port : IsPort c.http_port
  pub ttl : (c.redis_url ≡ "") ⊎ (pos 1 ≤ℤ c.redis_ttl)
  pub profiler : (c.pprof_enabled ≡ false) ⊎ (IsPort c.pprof_port × (c.pprof_port ≢ c.http_port))

-- A configuration passes exactly when it has a database, its port is one of 1 to 65535, its time to
-- live is positive if Redis is used, and the profiler, if it is enabled, has another such port.
pub validate_iff : (c : Config) → (validate c ≡ none) ↔ IsValidConfig c
unfolding validate ltb_ℤ leb_ℤ
validate_iff c =
    ground
      (arith, eq_iff c.database_url "", eq_iff c.redis_url "", eqb_ℤ_iff c.pprof_port c.http_port)

-- A number that is read from the environment: the default for a variable that is empty or not set, and
-- otherwise the integer of 64 bits that its whole text spells.
abbrev pub IsNumberOf : (String → String) → String → ℤ → ℤ → Type 0
IsNumberOf getenv key def n =
    ((getenv key ≡ "") × (n ≡ def))
    ⊎ ((getenv key ≢ "") × (parse_int (getenv key) ≡ Strconv.number n))

-- Any other text is refused.
pub env_int_lem :
    (getenv : String → String) (key : String) (def n : ℤ)
    → (env_int getenv key def ≡ setting n) ↔ IsNumberOf getenv key def n
unfolding env_int
env_int_lem getenv key def n = ground (arith, eq_iff (getenv key) "")

abbrev pub IsMode : String → Type 0
IsMode mode = (mode ≡ "development") ⊎ (mode ≡ "production") ⊎ (mode ≡ "test")

is_valid_mode-IsMode : (mode : String) → is_valid_mode mode ≡ true → IsMode mode
unfolding is_valid_mode
is_valid_mode-IsMode mode e =
    ground (arith, eq_iff mode "development", eq_iff mode "production", eq_iff mode "test")

-- A mode that is read from the environment is the default for a variable that is empty or not set, and
-- otherwise its text; it is one of the three.
abbrev pub IsModeOf : (String → String) → String → String → String → Type 0
IsModeOf getenv key def mode =
    (((getenv key ≡ "") × (mode ≡ def)) ⊎ ((getenv key ≢ "") × (mode ≡ getenv key))) × IsMode mode

pub env_app_mode-IsModeOf :
    (getenv : String → String) (key : String) (def mode : AppMode)
    → IsMode def
    → env_app_mode getenv key def ≡ setting mode
    → IsModeOf getenv key def mode
unfolding env_app_mode
env_app_mode-IsModeOf getenv key def mode h e =
    let raw = getenv key in
    elim (Bool-cases (raw == "")) [
      | inl empty ↦
          let ran = e in
          let same : def ≡ mode = let now = rw empty at ran in cc in
          (inl ((eq_iff raw "").0 empty, sym same), subst IsMode same h)
      | inr given ↦ elim (Bool-cases (is_valid_mode raw)) [
        | inl valid ↦
            let ran = e in
            let same : raw ≡ mode = let now = rw (given, valid) at ran in cc in
            (
              inr (λ no. let yes = (eq_iff raw "").1 no in cc (sym yes ∙ given), sym same),
              subst IsMode same (is_valid_mode-IsMode raw valid),
            )
        | inr bad ↦ let ran = e in let refused_with = rw (given, bad) at ran in absurd cc
      ]
    ]
