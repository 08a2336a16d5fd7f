-- ===== src/Config/Fields.antt =====
-- config.go: which field of the configuration a variable of the environment is for.
use superapi.Prelude.{Str, String, ◌≡◌, refl, Bool, List, [], ◌∷◌, map, All}
use superapi.Prelude.Integer.{ℤ}
use superapi.Config.Env.{
  Library, Source, getenv, get_bool, get_int, get_int32, get_int64, get_duration, get_float64,
}
use superapi.Config.Types.{Config}
use superapi.Config.Sections.{
  load_http, load_middleware, load_access_log, load_cors, load_auth, load_rate_limit, load_cache,
  load_postgres, load_redis, load_metrics, load_tracing,
}
use superapi.Config.Load.{load_from}
use superapi.Config.Lint.{
  Kind, a_bool, an_int, an_int32, an_int64, a_float, a_duration, a_timeout, a_text, Variable,
  linted,
}

-- A variable, with its kind and where its value stands in the configuration.
pub data Field (F : Type 0) : Type 0 where
  bool_field : String → (Config F → Bool) → Field F
  int_field int32_field int64_field duration_field timeout_field : String → (Config F → ℤ) → Field F
  float_field : String → (Config F → F) → Field F
  text_field : String → (Config F → Str) → Field F

abbrev var : Kind → String → Variable
var kind key = record { kind = kind; key = key }

abbrev pub variable_of : {F : Type 0} → Field F → Variable
variable_of (bool_field key at) = var a_bool key
variable_of (int_field key at) = var an_int key
variable_of (int32_field key at) = var an_int32 key
variable_of (int64_field key at) = var an_int64 key
variable_of (duration_field key at) = var a_duration key
variable_of (timeout_field key at) = var a_timeout key
variable_of (float_field key at) = var a_float key
variable_of (text_field key at) = var a_text key

module _ (F : Type 0) where
  abbrev pub fields : List (Field F)
  fields =
      bool_field "HTTP_MIDDLEWARE_REQUEST_ID_ENABLED" (λ c. c.http.middleware.request_id_enabled)
      ∷ bool_field "HTTP_MIDDLEWARE_RECOVERER_ENABLED" (λ c. c.http.middleware.recoverer_enabled)
      ∷ bool_field "HTTP_MIDDLEWARE_SECURITY_HEADERS_ENABLED"
          (λ c. c.http.middleware.security_headers_enabled)
      ∷ timeout_field "HTTP_MIDDLEWARE_REQUEST_TIMEOUT" (λ c. c.http.middleware.request_timeout)
      ∷ text_field "HTTP_ADDR" (λ c. c.http.addr)
      ∷ bool_field "HTTP_MIDDLEWARE_ACCESS_LOG_ENABLED" (λ c. c.http.middleware.access_log.enabled)
      ∷ bool_field "HTTP_MIDDLEWARE_CORS_ENABLED" (λ c. c.http.middleware.cors.enabled)
      ∷ bool_field "HTTP_MIDDLEWARE_CORS_ALLOW_CREDENTIALS"
          (λ c. c.http.middleware.cors.allow_credentials)
      ∷ bool_field "HTTP_MIDDLEWARE_CORS_ALLOW_PRIVATE_NETWORK"
          (λ c. c.http.middleware.cors.allow_private_network)
      ∷ bool_field "AUTH_ENABLED" (λ c. c.auth.enabled)
      ∷ bool_field "RATELIMIT_ENABLED" (λ c. c.rate_limit.enabled)
      ∷ bool_field "RATELIMIT_FAIL_OPEN" (λ c. c.rate_limit.fail_open)
      ∷ int_field "RATELIMIT_DEFAULT_LIMIT" (λ c. c.rate_limit.default_limit)
      ∷ duration_field "RATELIMIT_DEFAULT_WINDOW" (λ c. c.rate_limit.default_window)
      ∷ int_field "HTTP_MAX_HEADER_BYTES" (λ c. c.http.max_header_bytes)
      ∷ int64_field "HTTP_MIDDLEWARE_MAX_BODY_BYTES" (λ c. c.http.middleware.max_body_bytes)
      ∷ duration_field "HTTP_READ_HEADER_TIMEOUT" (λ c. c.http.read_header_timeout)
      ∷ duration_field "HTTP_READ_TIMEOUT" (λ c. c.http.read_timeout)
      ∷ duration_field "HTTP_WRITE_TIMEOUT" (λ c. c.http.write_timeout)
      ∷ duration_field "HTTP_IDLE_TIMEOUT" (λ c. c.http.idle_timeout)
      ∷ duration_field "HTTP_SHUTDOWN_TIMEOUT" (λ c. c.http.shutdown_timeout)
      ∷ duration_field "HTTP_MIDDLEWARE_CORS_MAX_AGE" (λ c. c.http.middleware.cors.max_age)
      ∷ duration_field "CACHE_TAG_VERSION_CACHE_TTL" (λ c. c.cache.tag_version_cache_ttl)
      ∷ float_field "HTTP_MIDDLEWARE_ACCESS_LOG_SAMPLE_RATE"
          (λ c. c.http.middleware.access_log.sample_rate)
      ∷ duration_field "HTTP_MIDDLEWARE_ACCESS_LOG_SLOW_THRESHOLD"
          (λ c. c.http.middleware.access_log.slow_threshold)
      ∷ bool_field "HTTP_MIDDLEWARE_ACCESS_LOG_INCLUDE_USER_AGENT"
          (λ c. c.http.middleware.access_log.include_user_agent)
      ∷ bool_field "HTTP_MIDDLEWARE_ACCESS_LOG_INCLUDE_REMOTE_IP"
          (λ c. c.http.middleware.access_log.include_remote_ip)
      ∷ bool_field "POSTGRES_ENABLED" (λ c. c.postgres.enabled)
      ∷ int32_field "POSTGRES_MAX_CONNS" (λ c. c.postgres.max_conns)
      ∷ int32_field "POSTGRES_MIN_CONNS" (λ c. c.postgres.min_conns)
      ∷ duration_field "POSTGRES_CONN_MAX_LIFETIME" (λ c. c.postgres.conn_max_lifetime)
      ∷ duration_field "POSTGRES_CONN_MAX_IDLE_TIME" (λ c. c.postgres.conn_max_idle_time)
      ∷ duration_field "POSTGRES_STARTUP_PING_TIMEOUT" (λ c. c.postgres.startup_ping_timeout)
      ∷ duration_field "POSTGRES_HEALTH_CHECK_TIMEOUT" (λ c. c.postgres.health_check_timeout)
      ∷ bool_field "REDIS_ENABLED" (λ c. c.redis.enabled)
      ∷ int_field "REDIS_DB" (λ c. c.redis.db)
      ∷ int_field "REDIS_POOL_SIZE" (λ c. c.redis.pool_size)
      ∷ int_field "REDIS_MIN_IDLE_CONNS" (λ c. c.redis.min_idle_conns)
      ∷ duration_field "REDIS_DIAL_TIMEOUT" (λ c. c.redis.dial_timeout)
      ∷ duration_field "REDIS_READ_TIMEOUT" (λ c. c.redis.read_timeout)
      ∷ duration_field "REDIS_WRITE_TIMEOUT" (λ c. c.redis.write_timeout)
      ∷ duration_field "REDIS_STARTUP_PING_TIMEOUT" (λ c. c.redis.startup_ping_timeout)
      ∷ duration_field "REDIS_HEALTH_CHECK_TIMEOUT" (λ c. c.redis.health_check_timeout)
      ∷ bool_field "METRICS_ENABLED" (λ c. c.metrics.enabled)
      ∷ bool_field "TRACING_ENABLED" (λ c. c.tracing.enabled)
      ∷ float_field "TRACING_SAMPLE_RATIO" (λ c. c.tracing.sample_ratio)
      ∷ bool_field "TRACING_INSECURE" (λ c. c.tracing.insecure)
      ∷ []

  -- The fields are those of the variables that Lint reads again.
  pub variables_of_fields : map variable_of fields ≡ linted
  variables_of_fields = refl

-- A proof of the first of a list, before those of the others.
infixr 4 ◌and◌
◌and◌ : {A B : Type 0} → A → B → A × B
h and hs = (h, hs)

-- The getter that a field has its value from, with some fallback.
abbrev pub IsGot : {F : Type 0} → Library F → Source → Config F → Field F → Type 0
IsGot lib s c (bool_field key at) = (d : Bool) × (at c ≡ get_bool s key d)
IsGot lib s c (int_field key at) = (d : ℤ) × (at c ≡ get_int s key d)
IsGot lib s c (int32_field key at) = (d : ℤ) × (at c ≡ get_int32 s key d)
IsGot lib s c (int64_field key at) = (d : ℤ) × (at c ≡ get_int64 s key d)
IsGot lib s c (duration_field key at) = (d : ℤ) × (at c ≡ get_duration lib s key d)
IsGot lib s c (timeout_field key at) = (d : ℤ) × (at c ≡ get_duration lib s key d)
IsGot {F} lib s c (float_field key at) = (d : F) × (at c ≡ get_float64 lib s key d)
IsGot lib s c (text_field key at) = (d : Str) × (at c ≡ getenv s key d)

module _ {F : Type 0} (lib : Library F) (env profile service_name : Str) (s : Source) where
  pub load_from-IsGot : All (IsGot lib s (load_from lib env profile service_name s)) (fields F)
  unfolding load_http load_middleware load_access_log load_cors load_auth load_rate_limit load_cache
      load_postgres load_redis load_metrics load_tracing
  load_from-IsGot =
      (_, refl)
      and (_, refl)
      and (_, refl)
      and (_, refl)
      and (_, refl)
      and (_, refl)
      and (_, refl)
      and (_, refl)
      and (_, refl)
      and (_, refl)
      and (_, refl)
      and (_, refl)
      and (_, refl)
      and (_, refl)
      and (_, refl)
      and (_, refl)
      and (_, refl)
      and (_, refl)
      and (_, refl)
      and (_, refl)
      and (_, refl)
      and (_, refl)
      and (_, refl)
      and (_, refl)
      and (_, refl)
      and (_, refl)
      and (_, refl)
      and (_, refl)
      and (_, refl)
      and (_, refl)
      and (_, refl)
      and (_, refl)
      and (_, refl)
      and (_, refl)
      and (_, refl)
      and (_, refl)
      and (_, refl)
      and (_, refl)
      and (_, refl)
      and (_, refl)
      and (_, refl)
      and (_, refl)
      and (_, refl)
      and (_, refl)
      and (_, refl)
      and (_, refl)
      and (_, refl)
      and tt
