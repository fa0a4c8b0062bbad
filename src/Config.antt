-- ===== src/Config.antt =====
-- internal/config/config.go: the settings, their checks, and how a variable is read. An error is its
-- message with the values that it shows, not yet rendered. `os.Getenv` gives the empty text for a
-- variable that is not set.
pub mod Checks
pub mod Loading
use graph_code_challenge.Errors.{not_exist, is, Error, Result, err, ok}
use graph_code_challenge.Strconv.{parse_int}
use graph_code_challenge.Prelude.{
  false, true, eqb_ℤ, leb_ℤ, ◌&&◌, ◌∷◌, ◌||◌, not, format_int, ltb_ℤ, if◌then◌else◌, sprintf, ◌==◌,
  Option, ℤ, Bool, String, pos, some, none, [],
}
use graph_code_challenge.Strconv

abbrev pub AppMode : Type 0
AppMode = String

abbrev app_mode_production : AppMode
app_mode_production = "production"

abbrev app_mode_development : AppMode
app_mode_development = "development"

abbrev pub app_mode_test : AppMode
app_mode_test = "test"

-- `AppMode.IsValid`
unfoldable pub is_valid_mode : AppMode → Bool
is_valid_mode am = am == app_mode_development || am == app_mode_production || am == app_mode_test

-- Durations are in nanoseconds.
pub record Config : Type 0 where
  pub app_mode : AppMode
  pub http_port : ℤ
  pub database_url : String
  pub redis_url : String
  pub redis_ttl : ℤ
  pub pprof_enabled : Bool
  pub pprof_port : ℤ

-- The messages of this file, each with the values that it shows.
pub data Complaint : Type 0 where
  database_url_required : Complaint
  http_port_range : ℤ → Complaint
  redis_ttl_positive : ℤ → Complaint
  pprof_port_range : ℤ → Complaint
  pprof_port_differs : Complaint
  unknown_mode : String → String → Complaint
  not_integer : String → String → Complaint
  not_boolean : String → String → Complaint
  not_duration : String → String → Complaint
  unreadable_file : String → Error → Complaint

pub data Setting (A : Type 0) : Type 0 where
  setting : A → Setting A
  complaint : Complaint → Setting A

abbrev default_env_file : String
default_env_file = ".env"

-- A minute.
abbrev default_redis_ttl : ℤ
default_redis_ttl = pos 60000000000

abbrev default_pprof_port : ℤ
default_pprof_port = pos 6060

-- `if err != nil { return Config{}, err }`
abbrev pub and_then : {A B : Type 0} → Setting A → (A → Setting B) → Setting B
and_then (setting a) f = f a
and_then (complaint c) f = complaint c

abbrev pub checked : Config → Option Complaint → Setting Config
checked c none = setting c
checked c (some x) = complaint x

unfoldable addr : Config → String
addr c = sprintf ":%d" (format_int c.http_port ∷ [])

unfoldable pprof_addr : Config → String
pprof_addr c = sprintf ":%d" (format_int c.pprof_port ∷ [])

abbrev is_bad_port : ℤ → Bool
is_bad_port port = ltb_ℤ port (pos 1) || ltb_ℤ (pos 65535) port

unfoldable pub validate : Config → Option Complaint
validate c =
    if c.database_url == ""
    then some database_url_required
    else if is_bad_port c.http_port
    then some (http_port_range c.http_port)
    else if not (c.redis_url == "") && leb_ℤ c.redis_ttl (pos 0)
    then some (redis_ttl_positive c.redis_ttl)
    else if c.pprof_enabled && is_bad_port c.pprof_port
    then some (pprof_port_range c.pprof_port)
    else if c.pprof_enabled && eqb_ℤ c.pprof_port c.http_port
    then some pprof_port_differs
    else none

-- `strconv.ParseBool`
unfoldable pub parse_bool : String → Option Bool
parse_bool raw =
    if raw == "1" || raw == "t" || raw == "T" || raw == "TRUE" || raw == "true" || raw == "True"
    then some true
    else if raw == "0"
        || raw == "f"
        || raw == "F"
        || raw == "FALSE"
        || raw == "false"
        || raw == "False"
    then some false
    else none

module _ (getenv : String → String) where
  unfoldable pub env_app_mode : String → AppMode → Setting AppMode
  env_app_mode key def =
      let raw = getenv key in
      if raw == ""
      then setting def
      else if not (is_valid_mode raw)
      then complaint (unknown_mode key raw)
      else setting raw

  unfoldable pub env_str : String → String → String
  env_str key def = if not (getenv key == "") then getenv key else def

  -- `strconv.Atoi` reads what `ParseInt` does.
  unfoldable pub env_int : String → ℤ → Setting ℤ
  env_int key def =
      let raw = getenv key in
      if raw == "" then setting def else elim (parse_int raw) [
        | Strconv.number value ↦ setting value
        | Strconv.bad_syntax ↦ complaint (not_integer key raw)
        | Strconv.out_of_range ↦ complaint (not_integer key raw)
      ]

  unfoldable pub env_bool : String → Bool → Setting Bool
  env_bool key def =
      let raw = getenv key in
      if raw == "" then setting def else elim (parse_bool raw) [
        | some value ↦ setting value
        | none ↦ complaint (not_boolean key raw)
      ]

  -- `time.ParseDuration` is a parameter: it gives nanoseconds.
  unfoldable pub env_duration : (String → Option ℤ) → String → ℤ → Setting ℤ
  env_duration parse_duration key def =
      let raw = getenv key in
      if raw == "" then setting def else elim (parse_duration raw) [
        | some value ↦ setting value
        | none ↦ complaint (not_duration key raw)
      ]

  -- `Load`, after the file of the environment has been read.
  unfoldable pub read_settings : (String → Option ℤ) → Setting Config
  read_settings parse_duration = and_then (env_app_mode "APP_MODE" app_mode_development) λ mode.
      and_then (env_int "HTTP_PORT" (pos 8080)) λ port.
        and_then (env_duration parse_duration "REDIS_TTL" default_redis_ttl) λ redis_ttl.
          and_then (env_bool "PPROF_ENABLED" false) λ pprof_enabled.
            and_then (env_int "PPROF_PORT" default_pprof_port) λ pprof_port.
              let cfg : Config = record {
                app_mode = mode;
                http_port = port;
                database_url = env_str "DATABASE_URL" "";
                redis_url = env_str "REDIS_URL" "";
                redis_ttl = redis_ttl;
                pprof_enabled = pprof_enabled;
                pprof_port = pprof_port;
              } in
              checked cfg (validate cfg)

-- What `Load` does with the outcome of reading the file: a file that does not exist is passed over.
abbrev pub after_dotenv :
    (String → Option ℤ) → String → (String → String) → Result (String → String) → Setting Config
after_dotenv parse_duration file getenv (ok added) = read_settings added parse_duration
after_dotenv parse_duration file getenv (err e) =
    if not (is e not_exist)
    then complaint (unreadable_file file e)
    else read_settings getenv parse_duration

abbrev pub env_file : (String → String) → String
env_file getenv = if getenv "ENV_FILE" == "" then default_env_file else getenv "ENV_FILE"

-- `Load`. `load_dotenv` is `godotenv.Load`: it gives the environment with what the file adds.
unfoldable pub load :
    (String → (String → String) → Result (String → String))
    → (String → Option ℤ)
    → (String → String)
    → Setting Config
load load_dotenv parse_duration getenv =
    let file = env_file getenv in after_dotenv parse_duration file getenv (load_dotenv file getenv)
