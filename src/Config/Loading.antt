-- ===== src/Config/Loading.antt =====
-- What a configuration that is loaded has passed.
use graph_code_challenge.Errors.{is, Error, Result, err, ok}
use graph_code_challenge.Config.{
  env_file, after_dotenv, not_exist, load, env_bool, env_duration, env_str, Config, Setting,
  setting, complaint, Complaint, and_then, checked, read_settings, env_int, env_app_mode,
  is_valid_mode, validate,
}
use graph_code_challenge.Config.Checks.{
  IsValidConfig, validate_iff, IsModeOf, IsNumberOf, env_app_mode-IsModeOf, env_int_lem,
}
use graph_code_challenge.Prelude.{
  Bool-cases, inr, inl, subst, eq_iff, arith, ◌≡◌, refl, pos, false, true, some, none, String,
  Option, ℤ,
}

-- A configuration that was read from the environment `getenv`.
pub record IsRead (getenv : String → String) (c : Config) : Type 0 where
  pub valid : IsValidConfig c
  pub mode_read : IsModeOf getenv "APP_MODE" "development" c.app_mode
  pub port_read : IsNumberOf getenv "HTTP_PORT" (pos 8080) c.http_port
  pub pprof_port_read : IsNumberOf getenv "PPROF_PORT" (pos 6060) c.pprof_port
  pub database_read : c.database_url ≡ getenv "DATABASE_URL"

and_then-setting :
    {A B : Type 0} (x : Setting A) (f : A → Setting B) (b : B)
    → and_then x f ≡ setting b
    → (a : A) × (x ≡ setting a) × (f a ≡ setting b)
and_then-setting (setting a) f b e = (a, refl, e)
and_then-setting (complaint c) f b e = cc

checked-setting :
    (c d : Config) (x : Option Complaint) → checked c x ≡ setting d → (c ≡ d) × (x ≡ none)
checked-setting c d none e = (cc, refl)
checked-setting c d (some x) e = cc

env_str_lem : (getenv : String → String) (key : String) → env_str getenv key "" ≡ getenv key
unfolding env_str
env_str_lem getenv key = ground (arith, eq_iff (getenv key) "")

read_settings-IsRead :
    (getenv : String → String) (parse_duration : String → Option ℤ) (c : Config)
    → read_settings getenv parse_duration ≡ setting c
    → IsRead getenv c
unfolding read_settings is_valid_mode
read_settings-IsRead getenv parse_duration c e =
    let (mode, mode_read, e1) =
      and_then-setting (env_app_mode getenv "APP_MODE" "development") _ c e in
    let (port, port_read, e2) = and_then-setting (env_int getenv "HTTP_PORT" (pos 8080)) _ c e1 in
    let (ttl, ttl_read, e3) =
      and_then-setting (env_duration getenv parse_duration "REDIS_TTL" (pos 60000000000)) _ c e2 in
    let (enabled, enabled_read, e4) =
      and_then-setting (env_bool getenv "PPROF_ENABLED" false) _ c e3 in
    let (pprof_port, pprof_read, e5) =
      and_then-setting (env_int getenv "PPROF_PORT" (pos 6060)) _ c e4 in
    let cfg : Config = record {
      app_mode = mode;
      http_port = port;
      database_url = env_str getenv "DATABASE_URL" "";
      redis_url = env_str getenv "REDIS_URL" "";
      redis_ttl = ttl;
      pprof_enabled = enabled;
      pprof_port = pprof_port;
    } in
    let (same, passes) = checked-setting cfg c (validate cfg) e5 in
    subst (IsRead getenv) same (record {
      valid = (validate_iff cfg).0 passes;
      mode_read = env_app_mode-IsModeOf getenv "APP_MODE" "development" mode (inl refl) mode_read;
      port_read = (env_int_lem getenv "HTTP_PORT" (pos 8080) port).0 port_read;
      pprof_port_read = (env_int_lem getenv "PPROF_PORT" (pos 6060) pprof_port).0 pprof_read;
      database_read = env_str_lem getenv "DATABASE_URL";
    })

-- The environment that `Load` reads: with the file's settings, or as it is if there is no file.
pub data ReadFrom (getenv : String → String) (r : Result (String → String)) (from : String → String)
    : Type 0 where
  with_file : r ≡ ok from → ReadFrom getenv r from
  without_file :
      (e : Error) → r ≡ err e → is e not_exist ≡ true → from ≡ getenv → ReadFrom getenv r from

after_dotenv-IsRead :
    (parse_duration : String → Option ℤ) (file : String) (getenv : String → String)
    (r : Result (String → String)) (c : Config)
    → after_dotenv parse_duration file getenv r ≡ setting c
    → (from : String → String) × ReadFrom getenv r from × IsRead from c
after_dotenv-IsRead parse_duration file getenv (ok added) c e =
    (added, with_file refl, read_settings-IsRead added parse_duration c e)
after_dotenv-IsRead parse_duration file getenv (err x) c e =
    let ran = e in
    elim (Bool-cases (is x not_exist)) [
      | inl absent ↦ (
        getenv,
        without_file x refl absent refl,
        read_settings-IsRead getenv parse_duration c (rw absent at ran),
      )
      | inr other ↦ let refused_with = rw other at ran in absurd (ground arith)
    ]

-- A configuration that `Load` gives was read from the environment, with what the file adds to it if
-- there is one: it is valid, its mode is one of the three, that of APP_MODE or else "development", its
-- database is the one of DATABASE_URL, and its ports are the numbers that HTTP_PORT and PPROF_PORT
-- spell, or 8080 and 6060 for a variable that is empty or not set.
pub load-IsRead :
    (load_dotenv : String → (String → String) → Result (String → String))
    (parse_duration : String → Option ℤ) (getenv : String → String) (c : Config)
    → load load_dotenv parse_duration getenv ≡ setting c
    → (from : String → String) × ReadFrom getenv (load_dotenv (env_file getenv) getenv) from
      × IsRead from c
unfolding load
load-IsRead load_dotenv parse_duration getenv c e =
    after_dotenv-IsRead parse_duration (env_file getenv) getenv
      (load_dotenv (env_file getenv) getenv) c e
