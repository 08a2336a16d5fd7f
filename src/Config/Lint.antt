-- ===== src/Config/Lint.antt =====
-- config.go: the tests of the environment itself, and Lint as a whole.
use superapi.Prelude.{
  Str, String, Bool, false, Option, none, some, List, [], ◌∷◌, ◌++◌, ◌==◌, trim_space,
}
use superapi.Prelude.Integer.{ℤ, is_negative}
use superapi.Config.Numbers.{parse_bool, atoi, parse_int32, parse_int64}
use superapi.Config.Env.{Library, Environment, badly_set}
use superapi.Config.Types.{Config}
use superapi.Config.Guards.{Message, Guard, refuse, refuse_of, first_error, each, concat}
use superapi.Config.Parts.{
  lint_profile, lint_http, lint_notify, lint_limits, access_log_path, lint_postgres, lint_redis,
  lint_metrics, lint_tracing, lint_log,
}
use superapi.Config.AuthParts.{lint_auth}

-- How Lint reads a variable: like Load, or as a duration that is not negative, or as a text that is
-- not blank.
pub data Kind : Type 0 where
  a_bool : Kind
  an_int : Kind
  an_int32 : Kind
  an_int64 : Kind
  a_float : Kind
  a_duration : Kind
  a_timeout : Kind
  a_text : Kind

pub record Variable : Type 0 where
  pub kind : Kind
  pub key : String

abbrev var : Kind → String → Variable
var kind key = record { kind = kind; key = key }

-- The variables that Lint reads again, in its order.
abbrev pub linted : List Variable
linted =
    var a_bool "HTTP_MIDDLEWARE_REQUEST_ID_ENABLED"
    ∷ var a_bool "HTTP_MIDDLEWARE_RECOVERER_ENABLED"
    ∷ var a_bool "HTTP_MIDDLEWARE_SECURITY_HEADERS_ENABLED"
    ∷ var a_timeout "HTTP_MIDDLEWARE_REQUEST_TIMEOUT"
    ∷ var a_text "HTTP_ADDR"
    ∷ var a_bool "HTTP_MIDDLEWARE_ACCESS_LOG_ENABLED"
    ∷ var a_bool "HTTP_MIDDLEWARE_CORS_ENABLED"
    ∷ var a_bool "HTTP_MIDDLEWARE_CORS_ALLOW_CREDENTIALS"
    ∷ var a_bool "HTTP_MIDDLEWARE_CORS_ALLOW_PRIVATE_NETWORK"
    ∷ var a_bool "AUTH_ENABLED"
    ∷ var a_bool "RATELIMIT_ENABLED"
    ∷ var a_bool "RATELIMIT_FAIL_OPEN"
    ∷ var an_int "RATELIMIT_DEFAULT_LIMIT"
    ∷ var a_duration "RATELIMIT_DEFAULT_WINDOW"
    ∷ var an_int "HTTP_MAX_HEADER_BYTES"
    ∷ var an_int64 "HTTP_MIDDLEWARE_MAX_BODY_BYTES"
    ∷ var a_duration "HTTP_READ_HEADER_TIMEOUT"
    ∷ var a_duration "HTTP_READ_TIMEOUT"
    ∷ var a_duration "HTTP_WRITE_TIMEOUT"
    ∷ var a_duration "HTTP_IDLE_TIMEOUT"
    ∷ var a_duration "HTTP_SHUTDOWN_TIMEOUT"
    ∷ var a_duration "HTTP_MIDDLEWARE_CORS_MAX_AGE"
    ∷ var a_duration "CACHE_TAG_VERSION_CACHE_TTL"
    ∷ var a_float "HTTP_MIDDLEWARE_ACCESS_LOG_SAMPLE_RATE"
    ∷ var a_duration "HTTP_MIDDLEWARE_ACCESS_LOG_SLOW_THRESHOLD"
    ∷ var a_bool "HTTP_MIDDLEWARE_ACCESS_LOG_INCLUDE_USER_AGENT"
    ∷ var a_bool "HTTP_MIDDLEWARE_ACCESS_LOG_INCLUDE_REMOTE_IP"
    ∷ var a_bool "POSTGRES_ENABLED"
    ∷ var an_int32 "POSTGRES_MAX_CONNS"
    ∷ var an_int32 "POSTGRES_MIN_CONNS"
    ∷ var a_duration "POSTGRES_CONN_MAX_LIFETIME"
    ∷ var a_duration "POSTGRES_CONN_MAX_IDLE_TIME"
    ∷ var a_duration "POSTGRES_STARTUP_PING_TIMEOUT"
    ∷ var a_duration "POSTGRES_HEALTH_CHECK_TIMEOUT"
    ∷ var a_bool "REDIS_ENABLED"
    ∷ var an_int "REDIS_DB"
    ∷ var an_int "REDIS_POOL_SIZE"
    ∷ var an_int "REDIS_MIN_IDLE_CONNS"
    ∷ var a_duration "REDIS_DIAL_TIMEOUT"
    ∷ var a_duration "REDIS_READ_TIMEOUT"
    ∷ var a_duration "REDIS_WRITE_TIMEOUT"
    ∷ var a_duration "REDIS_STARTUP_PING_TIMEOUT"
    ∷ var a_duration "REDIS_HEALTH_CHECK_TIMEOUT"
    ∷ var a_bool "METRICS_ENABLED"
    ∷ var a_bool "TRACING_ENABLED"
    ∷ var a_float "TRACING_SAMPLE_RATIO"
    ∷ var a_bool "TRACING_INSECURE"
    ∷ []

abbrev is_below_zero : Option ℤ → Bool
is_below_zero none = false
is_below_zero (some d) = is_negative d

abbrev negative_if_set : (Str → Option ℤ) → Option Str → Bool
negative_if_set parse none = false
negative_if_set parse (some v) = is_below_zero (parse v)

abbrev pub blank_if_set : Option Str → Bool
blank_if_set none = false
blank_if_set (some v) = trim_space v == []

-- lintBoolEnv, lintIntEnv and the others.
unfoldable pub variable_tests : {F : Type 0} → Library F → Environment → Kind → String → List Guard
unfolding parse_bool atoi parse_int32 parse_int64 trim_space ◌==◌
variable_tests lib env a_bool key = refuse_of key (badly_set parse_bool (env key)) "invalid" ∷ []
variable_tests lib env an_int key = refuse_of key (badly_set atoi (env key)) "invalid" ∷ []
variable_tests lib env an_int32 key = refuse_of key (badly_set parse_int32 (env key)) "invalid" ∷ []
variable_tests lib env an_int64 key = refuse_of key (badly_set parse_int64 (env key)) "invalid" ∷ []
variable_tests lib env a_float key =
    refuse_of key (badly_set lib.parse_float (env key)) "invalid" ∷ []
variable_tests lib env a_duration key =
    refuse_of key (badly_set lib.parse_duration (env key)) "invalid" ∷ []
variable_tests lib env a_timeout key =
    refuse_of key (badly_set lib.parse_duration (env key)) "invalid"
    ∷ refuse (negative_if_set lib.parse_duration (env key))
        "http middleware request timeout must be >= 0"
    ∷ []
variable_tests lib env a_text key = refuse (blank_if_set (env key)) "http addr cannot be empty" ∷ []

unfoldable pub lint_environment :
    {F : Type 0} → Library F → Environment → List Variable → List Guard
unfolding variable_tests
lint_environment lib env [] = []
lint_environment lib env (x ∷ xs) =
    variable_tests lib env x.kind x.key ++ lint_environment lib env xs

-- The parts of Lint, in order.
abbrev pub lint_parts :
    {F : Type 0} → Library F → List Str → Environment → Config F → List (List Guard)
lint_parts lib drivers env c =
    lint_profile env
    ∷ lint_http lib c.service_name c.cache c.http
    ∷ lint_auth lib env c.postgres c.redis c.auth
    ∷ lint_notify lib drivers c.env c.auth c.notify
    ∷ lint_limits c.env c.redis c.rate_limit c.cache
    ∷ each access_log_path c.http.middleware.access_log.exclude_paths
    ∷ lint_postgres c.postgres
    ∷ lint_redis c.redis
    ∷ lint_metrics c.env c.metrics
    ∷ lint_tracing lib c.tracing
    ∷ lint_environment lib env linted
    ∷ lint_log c.log
    ∷ []

-- The error of Lint; `none` is no error.
unfoldable pub lint : {F : Type 0} → Library F → List Str → Environment → Config F → Option Message
unfolding lint_profile lint_http lint_auth lint_notify lint_limits each access_log_path
    lint_postgres lint_redis lint_metrics lint_tracing lint_environment lint_log concat first_error
lint lib drivers env c = first_error (concat (lint_parts lib drivers env c))
