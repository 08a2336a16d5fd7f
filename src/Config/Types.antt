-- ===== src/Config/Types.antt =====
-- config.go and notify_smtp.go: the configuration. Integers and durations, in nanoseconds, are
-- integers; F is the type of floats.
use superapi.Prelude.{Str, Bool, List}
use superapi.Prelude.Integer.{ℤ}

pub record ClientIpConfig : Type 0 where
  pub trusted_proxies : List Str

pub record CorsConfig : Type 0 where
  pub enabled : Bool
  pub allow_origins : List Str
  pub deny_origins : List Str
  pub allow_methods : List Str
  pub allow_headers : List Str
  pub expose_headers : List Str
  pub allow_credentials : Bool
  pub max_age : ℤ
  pub allow_private_network : Bool

pub record AccessLogConfig (F : Type 0) : Type 0 where
  pub enabled : Bool
  pub sample_rate : F
  pub exclude_paths : List Str
  pub slow_threshold : ℤ
  pub include_user_agent : Bool
  pub include_remote_ip : Bool

pub record HttpMiddlewareConfig (F : Type 0) : Type 0 where
  pub request_id_enabled : Bool
  pub recoverer_enabled : Bool
  pub max_body_bytes : ℤ
  pub security_headers_enabled : Bool
  pub request_timeout : ℤ
  pub access_log : AccessLogConfig F
  pub client_ip : ClientIpConfig
  pub cors : CorsConfig
  pub tracing_exclude_paths : List Str

pub record HttpConfig (F : Type 0) : Type 0 where
  pub addr : Str
  pub read_header_timeout : ℤ
  pub read_timeout : ℤ
  pub write_timeout : ℤ
  pub idle_timeout : ℤ
  pub shutdown_timeout : ℤ
  pub max_header_bytes : ℤ
  pub middleware : HttpMiddlewareConfig F

pub record LogConfig : Type 0 where
  pub level : Str
  pub format : Str

pub record AuthConfig : Type 0 where
  pub enabled : Bool
  pub mode : Str
  pub registration_enabled : Bool
  pub registration_auto_login : Bool
  pub password_reset_enabled : Bool
  pub email_verification_enabled : Bool
  pub email_verification_required : Bool
  pub totp_enabled : Bool
  pub totp_issuer : Str
  pub totp_encryption_key : Str
  pub totp_encryption_keys : Str
  pub totp_encryption_active_kid : Str
  pub test_overrides_allowed : Bool

pub record RateLimitConfig : Type 0 where
  pub enabled : Bool
  pub fail_open : Bool
  pub default_limit : ℤ
  pub default_window : ℤ

pub record CacheConfig : Type 0 where
  pub enabled : Bool
  pub fail_open : Bool
  pub default_max_bytes : ℤ
  pub tag_version_cache_ttl : ℤ

pub record PostgresConfig : Type 0 where
  pub enabled : Bool
  pub url : Str
  pub max_conns : ℤ
  pub min_conns : ℤ
  pub conn_max_lifetime : ℤ
  pub conn_max_idle_time : ℤ
  pub startup_ping_timeout : ℤ
  pub health_check_timeout : ℤ

pub record RedisConfig : Type 0 where
  pub enabled : Bool
  pub addr : Str
  pub password : Str
  pub db : ℤ
  pub dial_timeout : ℤ
  pub read_timeout : ℤ
  pub write_timeout : ℤ
  pub pool_size : ℤ
  pub min_idle_conns : ℤ
  pub startup_ping_timeout : ℤ
  pub health_check_timeout : ℤ

pub record MetricsConfig : Type 0 where
  pub enabled : Bool
  pub path : Str
  pub auth_token : Str
  pub exclude_paths : List Str

pub record TracingConfig (F : Type 0) : Type 0 where
  pub enabled : Bool
  pub service_name : Str
  pub exporter : Str
  pub otlp_endpoint : Str
  pub sampler : Str
  pub sample_ratio : F
  pub insecure : Bool

pub record SmtpConfig : Type 0 where
  pub host : Str
  pub port : ℤ
  pub username : Str
  pub password : Str
  pub from : Str
  pub tls : Str
  pub reset_url : Str
  pub verify_url : Str

pub record NotifyConfig : Type 0 where
  pub driver : Str
  pub log_secrets : Bool
  pub timeout : ℤ
  pub smtp : SmtpConfig

pub record Config (F : Type 0) : Type 0 where
  pub env : Str
  pub profile : Str
  pub service_name : Str
  pub http : HttpConfig F
  pub log : LogConfig
  pub auth : AuthConfig
  pub rate_limit : RateLimitConfig
  pub cache : CacheConfig
  pub postgres : PostgresConfig
  pub redis : RedisConfig
  pub metrics : MetricsConfig
  pub tracing : TracingConfig F
  pub notify : NotifyConfig
