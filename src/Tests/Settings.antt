-- ===== src/Tests/Settings.antt =====
-- internal/config at concrete settings.
use graph_code_challenge.Config.Loading.{load-IsRead, IsRead, ReadFrom}
use graph_code_challenge.Errors.{is, not_exist, Result, sentinel, err}
use graph_code_challenge.Config.Checks.{validate_iff, IsValidConfig}
use graph_code_challenge.Config.{
  env_str, env_bool, env_duration, read_settings, load, app_mode_test, setting, env_app_mode,
  env_int, validate, is_valid_mode,
}
use graph_code_challenge.Prelude.{
  eqb_ℤ, leb_ℤ, ltb_ℤ, false, ◌==◌, ◌↔◌, if◌then◌else◌, ◌≡◌, String, pos, refl, true, none,
}
use graph_code_challenge.Config

abbrev local_settings : Config.Config
local_settings = record {
  app_mode = "development";
  http_port = pos 8080;
  database_url = "postgres://localhost/tasks";
  redis_url = "";
  redis_ttl = pos 0;
  pprof_enabled = true;
  pprof_port = pos 8080;
}

validate_iff_example : (validate local_settings ≡ none) ↔ IsValidConfig local_settings
validate_iff_example = validate_iff local_settings

abbrev only_database : String → String
only_database key = if key == "DATABASE_URL" then "postgres://localhost/tasks" else ""

abbrev no_file : String → (String → String) → Result (String → String)
no_file file getenv = err (sentinel not_exist)

abbrev default_settings : Config.Config
default_settings = record {
  app_mode = "development";
  http_port = pos 8080;
  database_url = "postgres://localhost/tasks";
  redis_url = "";
  redis_ttl = pos 60000000000;
  pprof_enabled = false;
  pprof_port = pos 6060;
}

default_loaded : load no_file (λ t. none) only_database ≡ setting default_settings
unfolding load read_settings env_app_mode env_int env_duration env_bool env_str validate is ltb_ℤ
    leb_ℤ eqb_ℤ
default_loaded = refl

load-IsRead_example :
    (from : String → String) × ReadFrom only_database (err (sentinel not_exist)) from
    × IsRead from default_settings
load-IsRead_example = load-IsRead no_file (λ t. none) only_database default_settings default_loaded
