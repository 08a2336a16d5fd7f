-- ===== src/Config/Sections.antt =====
-- config.go: the sections of the configuration that Load makes.
use superapi.Prelude.{
  Str, str, Bool, true, false, not, ◌||◌, [], ◌∷◌, ◌==◌, trim_space, to_lower, equal_fold, mem,
}
use superapi.Prelude.Integer.{pos}
use superapi.Config.Env.{
  Library, Source, getenv, get_bool, get_int, get_int32, get_int64, get_duration, get_float64,
  get_csv,
}
use superapi.Config.Types.{
  ClientIpConfig, CorsConfig, AccessLogConfig, HttpMiddlewareConfig, HttpConfig, LogConfig,
  AuthConfig, RateLimitConfig, CacheConfig, PostgresConfig, RedisConfig, MetricsConfig,
  TracingConfig,
}

-- APP_ENV names production.
unfoldable pub is_prod_env : Str → Bool
unfolding equal_fold trim_space
is_prod_env env =
    equal_fold (trim_space env) (str "prod") || equal_fold (trim_space env) (str "production")

unfoldable pub is_dev_or_test_env : Str → Bool
unfolding mem ◌==◌ trim_space to_lower
is_dev_or_test_env env =
    mem (to_lower (trim_space env)) (str "dev" ∷ str "development" ∷ str "local" ∷ str "test" ∷ [])

unfoldable pub load_access_log : {F : Type 0} → Library F → Source → AccessLogConfig F
unfolding get_bool get_duration get_float64 get_csv
load_access_log lib s = record {
  enabled = get_bool s "HTTP_MIDDLEWARE_ACCESS_LOG_ENABLED" true;
  sample_rate = get_float64 lib s "HTTP_MIDDLEWARE_ACCESS_LOG_SAMPLE_RATE" lib.five_percent;
  exclude_paths =
      get_csv s "HTTP_MIDDLEWARE_ACCESS_LOG_EXCLUDE_PATHS"
        (str "/healthz" ∷ str "/readyz" ∷ str "/metrics" ∷ []);
  slow_threshold =
      get_duration lib s "HTTP_MIDDLEWARE_ACCESS_LOG_SLOW_THRESHOLD" (pos 2_000_000_000);
  include_user_agent = get_bool s "HTTP_MIDDLEWARE_ACCESS_LOG_INCLUDE_USER_AGENT" false;
  include_remote_ip = get_bool s "HTTP_MIDDLEWARE_ACCESS_LOG_INCLUDE_REMOTE_IP" false;
}

unfoldable pub load_client_ip : Source → ClientIpConfig
unfolding get_csv
load_client_ip s = record { trusted_proxies = get_csv s "HTTP_TRUSTED_PROXIES" [] }

unfoldable pub load_cors : {F : Type 0} → Library F → Source → CorsConfig
unfolding get_bool get_duration get_csv
load_cors lib s = record {
  enabled = get_bool s "HTTP_MIDDLEWARE_CORS_ENABLED" false;
  allow_origins = get_csv s "HTTP_MIDDLEWARE_CORS_ALLOW_ORIGINS" [];
  deny_origins = get_csv s "HTTP_MIDDLEWARE_CORS_DENY_ORIGINS" [];
  allow_methods = get_csv s "HTTP_MIDDLEWARE_CORS_ALLOW_METHODS" [];
  allow_headers = get_csv s "HTTP_MIDDLEWARE_CORS_ALLOW_HEADERS" [];
  expose_headers = get_csv s "HTTP_MIDDLEWARE_CORS_EXPOSE_HEADERS" [];
  allow_credentials = get_bool s "HTTP_MIDDLEWARE_CORS_ALLOW_CREDENTIALS" false;
  max_age = get_duration lib s "HTTP_MIDDLEWARE_CORS_MAX_AGE" (pos 0);
  allow_private_network = get_bool s "HTTP_MIDDLEWARE_CORS_ALLOW_PRIVATE_NETWORK" false;
}

unfoldable pub load_middleware : {F : Type 0} → Library F → Bool → Source → HttpMiddlewareConfig F
unfolding get_bool get_int64 get_duration get_csv load_access_log load_client_ip load_cors
load_middleware lib prod s = record {
  request_id_enabled = get_bool s "HTTP_MIDDLEWARE_REQUEST_ID_ENABLED" true;
  recoverer_enabled = get_bool s "HTTP_MIDDLEWARE_RECOVERER_ENABLED" true;
  max_body_bytes = get_int64 s "HTTP_MIDDLEWARE_MAX_BODY_BYTES" (pos 1_048_576);
  security_headers_enabled = get_bool s "HTTP_MIDDLEWARE_SECURITY_HEADERS_ENABLED" prod;
  request_timeout = get_duration lib s "HTTP_MIDDLEWARE_REQUEST_TIMEOUT" (pos 0);
  access_log = load_access_log lib s;
  client_ip = load_client_ip s;
  cors = load_cors lib s;
  tracing_exclude_paths =
      get_csv s "HTTP_MIDDLEWARE_TRACING_EXCLUDE_PATHS"
        (str "/healthz" ∷ str "/readyz" ∷ str "/metrics" ∷ []);
}

unfoldable pub load_http : {F : Type 0} → Library F → Bool → Source → HttpConfig F
unfolding getenv get_int get_duration load_middleware
load_http lib prod s = record {
  addr = getenv s "HTTP_ADDR" (str ":8080");
  read_header_timeout = get_duration lib s "HTTP_READ_HEADER_TIMEOUT" (pos 5_000_000_000);
  read_timeout = get_duration lib s "HTTP_READ_TIMEOUT" (pos 15_000_000_000);
  write_timeout = get_duration lib s "HTTP_WRITE_TIMEOUT" (pos 15_000_000_000);
  idle_timeout = get_duration lib s "HTTP_IDLE_TIMEOUT" (pos 60_000_000_000);
  shutdown_timeout = get_duration lib s "HTTP_SHUTDOWN_TIMEOUT" (pos 10_000_000_000);
  max_header_bytes = get_int s "HTTP_MAX_HEADER_BYTES" (pos 1_048_576);
  middleware = load_middleware lib prod s;
}

unfoldable pub load_log : Source → LogConfig
unfolding getenv
load_log s = record {
  level = getenv s "LOG_LEVEL" (str "info");
  format = getenv s "LOG_FORMAT" (str "json");
}

unfoldable pub load_auth : Str → Source → AuthConfig
unfolding getenv get_bool trim_space is_dev_or_test_env
load_auth env s = record {
  enabled = get_bool s "AUTH_ENABLED" false;
  mode = getenv s "AUTH_MODE" (str "hybrid");
  registration_enabled = get_bool s "AUTH_REGISTRATION_ENABLED" false;
  registration_auto_login = get_bool s "AUTH_REGISTRATION_AUTO_LOGIN" false;
  password_reset_enabled = get_bool s "AUTH_PASSWORD_RESET_ENABLED" false;
  email_verification_enabled = get_bool s "AUTH_EMAIL_VERIFICATION_ENABLED" false;
  email_verification_required = get_bool s "AUTH_EMAIL_VERIFICATION_REQUIRED" true;
  totp_enabled = get_bool s "AUTH_TOTP_ENABLED" false;
  totp_issuer = trim_space (getenv s "AUTH_TOTP_ISSUER" []);
  totp_encryption_key = trim_space (getenv s "AUTH_TOTP_ENCRYPTION_KEY" []);
  totp_encryption_keys = trim_space (getenv s "AUTH_TOTP_ENCRYPTION_KEYS" []);
  totp_encryption_active_kid = trim_space (getenv s "AUTH_TOTP_ENCRYPTION_ACTIVE_KID" []);
  test_overrides_allowed = is_dev_or_test_env env;
}

unfoldable pub load_rate_limit : {F : Type 0} → Library F → Bool → Source → RateLimitConfig
unfolding get_bool get_int get_duration
load_rate_limit lib prod s = record {
  enabled = get_bool s "RATELIMIT_ENABLED" false;
  fail_open = get_bool s "RATELIMIT_FAIL_OPEN" (not prod);
  default_limit = get_int s "RATELIMIT_DEFAULT_LIMIT" (pos 10);
  default_window = get_duration lib s "RATELIMIT_DEFAULT_WINDOW" (pos 60_000_000_000);
}

unfoldable pub load_cache : {F : Type 0} → Library F → Bool → Source → CacheConfig
unfolding get_bool get_int get_duration
load_cache lib prod s = record {
  enabled = get_bool s "CACHE_ENABLED" false;
  fail_open = get_bool s "CACHE_FAIL_OPEN" (not prod);
  default_max_bytes = get_int s "CACHE_DEFAULT_MAX_BYTES" (pos 262_144);
  tag_version_cache_ttl = get_duration lib s "CACHE_TAG_VERSION_CACHE_TTL" (pos 250_000_000);
}

unfoldable pub load_postgres : {F : Type 0} → Library F → Source → PostgresConfig
unfolding getenv get_bool get_int32 get_duration
load_postgres lib s = record {
  enabled = get_bool s "POSTGRES_ENABLED" false;
  url = getenv s "POSTGRES_URL" [];
  max_conns = get_int32 s "POSTGRES_MAX_CONNS" (pos 10);
  min_conns = get_int32 s "POSTGRES_MIN_CONNS" (pos 0);
  conn_max_lifetime = get_duration lib s "POSTGRES_CONN_MAX_LIFETIME" (pos 1_800_000_000_000);
  conn_max_idle_time = get_duration lib s "POSTGRES_CONN_MAX_IDLE_TIME" (pos 300_000_000_000);
  startup_ping_timeout = get_duration lib s "POSTGRES_STARTUP_PING_TIMEOUT" (pos 3_000_000_000);
  health_check_timeout = get_duration lib s "POSTGRES_HEALTH_CHECK_TIMEOUT" (pos 1_000_000_000);
}

unfoldable pub load_redis : {F : Type 0} → Library F → Source → RedisConfig
unfolding getenv get_bool get_int get_duration
load_redis lib s = record {
  enabled = get_bool s "REDIS_ENABLED" false;
  addr = getenv s "REDIS_ADDR" (str "127.0.0.1:6379");
  password = getenv s "REDIS_PASSWORD" [];
  db = get_int s "REDIS_DB" (pos 0);
  dial_timeout = get_duration lib s "REDIS_DIAL_TIMEOUT" (pos 2_000_000_000);
  read_timeout = get_duration lib s "REDIS_READ_TIMEOUT" (pos 2_000_000_000);
  write_timeout = get_duration lib s "REDIS_WRITE_TIMEOUT" (pos 2_000_000_000);
  pool_size = get_int s "REDIS_POOL_SIZE" (pos 10);
  min_idle_conns = get_int s "REDIS_MIN_IDLE_CONNS" (pos 0);
  startup_ping_timeout = get_duration lib s "REDIS_STARTUP_PING_TIMEOUT" (pos 3_000_000_000);
  health_check_timeout = get_duration lib s "REDIS_HEALTH_CHECK_TIMEOUT" (pos 1_000_000_000);
}

unfoldable pub load_metrics : Source → MetricsConfig
unfolding getenv get_bool get_csv
load_metrics s = record {
  enabled = get_bool s "METRICS_ENABLED" true;
  path = getenv s "METRICS_PATH" (str "/metrics");
  auth_token = getenv s "METRICS_AUTH_TOKEN" [];
  exclude_paths = get_csv s "METRICS_EXCLUDE_PATHS" (str "/healthz" ∷ str "/readyz" ∷ []);
}

unfoldable pub load_tracing : {F : Type 0} → Library F → Bool → Source → TracingConfig F
unfolding getenv get_bool get_float64
load_tracing lib prod s = record {
  enabled = get_bool s "TRACING_ENABLED" false;
  service_name = getenv s "TRACING_SERVICE_NAME" [];
  exporter = getenv s "TRACING_EXPORTER" (str "otlpgrpc");
  otlp_endpoint = getenv s "TRACING_OTLP_ENDPOINT" (str "localhost:4317");
  sampler = getenv s "TRACING_SAMPLER" (str "traceidratio");
  sample_ratio = get_float64 lib s "TRACING_SAMPLE_RATIO" lib.five_percent;
  insecure = get_bool s "TRACING_INSECURE" (not prod);
}
