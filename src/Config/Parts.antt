-- ===== src/Config/Parts.antt =====
-- config.go: the parts of Lint, each the tests of one part of the configuration in the order of the
-- source. lintAuthFeatures ranges over a map; its tests stand here in the order they are written.
use superapi.Prelude.{
  Str, str, Bool, true, false, not, ◌&&◌, ◌||◌, Option, none, some, List, [], ◌∷◌, ◌++◌, ◌==◌, mem,
  if◌then◌else◌, trim_space, equal_fold,
}
use superapi.Prelude.Integer.{pos, is_negative, is_positive, int_lt}
use superapi.Config.Env.{Library, Environment, os_getenv, Defaults, resolve_profile_defaults}
use superapi.Config.Types.{
  CorsConfig, HttpConfig, LogConfig, AuthConfig, RateLimitConfig, CacheConfig, PostgresConfig,
  RedisConfig, MetricsConfig, TracingConfig, NotifyConfig,
}
use superapi.Config.Sections.{is_prod_env}
use superapi.Config.Guards.{
  Guard, refuse, each, contains_wildcard, validate_origins, validate_tokens,
  validate_trusted_proxies, exclude_path, starts_with,
}
use superapi.Config.Notify.{lint_notify_driver, lint_smtp, lint_notify_delivery}

abbrev no_profile : Option Defaults → Bool
no_profile none = true
no_profile (some d) = false

unfoldable pub lint_profile : Environment → List Guard
unfolding os_getenv trim_space ◌==◌ resolve_profile_defaults
lint_profile env =
    let profile = trim_space (os_getenv env "APP_PROFILE") in
    refuse (not (profile == []) && no_profile (resolve_profile_defaults profile))
      "invalid APP_PROFILE"
    ∷ []

unfoldable pub lint_cors : {F : Type 0} → Library F → CacheConfig → CorsConfig → List Guard
unfolding contains_wildcard validate_origins validate_tokens
lint_cors lib cache c =
    refuse (is_negative c.max_age) "http middleware cors max age must be >= 0"
    ∷ refuse (c.allow_credentials && contains_wildcard c.allow_origins)
        "http middleware cors allow credentials cannot be used with wildcard allow origins"
    ∷ refuse (is_negative cache.tag_version_cache_ttl) "cache tag version cache ttl must be >= 0"
    ∷ (validate_origins lib "http middleware cors allow origins" c.allow_origins
        ++ (validate_origins lib "http middleware cors deny origins" c.deny_origins
            ++ (validate_tokens "http middleware cors allow methods" c.allow_methods
                ++ (validate_tokens "http middleware cors allow headers" c.allow_headers
                    ++ validate_tokens "http middleware cors expose headers" c.expose_headers))))

unfoldable pub lint_http : {F : Type 0} → Library F → Str → CacheConfig → HttpConfig F → List Guard
unfolding ◌==◌ trim_space lint_cors validate_trusted_proxies each exclude_path
lint_http lib service_name cache h =
    refuse (service_name == []) "service name cannot be empty"
    ∷ refuse (trim_space h.addr == []) "http addr cannot be empty"
    ∷ refuse (not (is_positive h.read_header_timeout)) "http read header timeout must be > 0"
    ∷ refuse (not (is_positive h.read_timeout) || not (is_positive h.write_timeout))
        "http read/write timeout must be > 0"
    ∷ refuse (not (is_positive h.idle_timeout)) "http idle timeout must be > 0"
    ∷ refuse (not (is_positive h.shutdown_timeout)) "http shutdown timeout must be > 0"
    ∷ refuse (int_lt h.max_header_bytes (pos 4096)) "http max header bytes too low"
    ∷ refuse (is_negative h.middleware.max_body_bytes) "http middleware max body bytes must be >= 0"
    ∷ refuse (is_negative h.middleware.request_timeout)
        "http middleware request timeout must be >= 0"
    ∷ refuse
        (is_positive h.middleware.request_timeout
          && int_lt h.write_timeout h.middleware.request_timeout)
        "http middleware request timeout cannot exceed http write timeout"
    ∷ refuse
        (lib.float_lt h.middleware.access_log.sample_rate lib.float_zero
          || lib.float_lt lib.float_one h.middleware.access_log.sample_rate)
        "http middleware access log sample rate must be in [0,1]"
    ∷ refuse (is_negative h.middleware.access_log.slow_threshold)
        "http middleware access log slow threshold must be >= 0"
    ∷ (lint_cors lib cache h.middleware.cors
        ++ (validate_trusted_proxies lib h.middleware.client_ip.trusted_proxies
            ++ each (exclude_path "http middleware tracing") h.middleware.tracing_exclude_paths))

abbrev pub notifier_tests : Str → NotifyConfig → List Guard
notifier_tests env n =
    refuse (n.log_secrets && not (equal_fold (trim_space env) (str "dev")))
      "NOTIFY_LOG_SECRETS=true is only allowed with APP_ENV=dev"
    ∷ refuse (not (is_positive n.timeout)) "notify timeout must be > 0"
    ∷ []

unfoldable pub lint_notify :
    {F : Type 0} → Library F → List Str → Str → AuthConfig → NotifyConfig → List Guard
unfolding lint_notify_driver lint_smtp lint_notify_delivery equal_fold trim_space
lint_notify lib drivers env a n =
    lint_notify_driver drivers n
    ++ (lint_smtp lib env a n ++ (lint_notify_delivery env a n ++ notifier_tests env n))

unfoldable pub lint_limits : Str → RedisConfig → RateLimitConfig → CacheConfig → List Guard
unfolding is_prod_env
lint_limits env redis r c =
    refuse (r.enabled && not redis.enabled) "ratelimit enabled requires redis enabled"
    ∷ refuse (c.enabled && not redis.enabled) "cache enabled requires redis enabled"
    ∷ refuse (not (is_positive r.default_limit)) "ratelimit default limit must be > 0"
    ∷ refuse (not (is_positive r.default_window)) "ratelimit default window must be > 0"
    ∷ refuse (not (is_positive c.default_max_bytes)) "cache default max bytes must be > 0"
    ∷ refuse (is_prod_env env && (r.enabled && r.fail_open))
        "ratelimit fail-open cannot be enabled in prod"
    ∷ refuse (is_prod_env env && (c.enabled && c.fail_open))
        "cache fail-open cannot be enabled in prod"
    ∷ []

-- A path that the access log excludes may be blank, but not empty.
unfoldable pub access_log_path : Str → List Guard
unfolding ◌==◌
access_log_path p =
    refuse (p == []) "http middleware access log exclude path cannot be empty"
    ∷ refuse (not (starts_with b'/' p))
        "http middleware access log exclude path must start with '/'"
    ∷ []

unfoldable pub lint_postgres : PostgresConfig → List Guard
unfolding ◌==◌
lint_postgres p =
    refuse (p.enabled && p.url == []) "postgres url cannot be empty when enabled"
    ∷ refuse (not (is_positive p.max_conns)) "postgres max conns must be > 0"
    ∷ refuse (is_negative p.min_conns) "postgres min conns must be >= 0"
    ∷ refuse (int_lt p.max_conns p.min_conns) "postgres min conns cannot exceed max conns"
    ∷ refuse (is_negative p.conn_max_lifetime) "postgres conn max lifetime must be >= 0"
    ∷ refuse (is_negative p.conn_max_idle_time) "postgres conn max idle time must be >= 0"
    ∷ refuse (not (is_positive p.startup_ping_timeout)) "postgres startup ping timeout must be > 0"
    ∷ refuse (not (is_positive p.health_check_timeout)) "postgres health check timeout must be > 0"
    ∷ []

unfoldable pub lint_redis : RedisConfig → List Guard
unfolding ◌==◌
lint_redis r =
    refuse (r.enabled && r.addr == []) "redis addr cannot be empty when enabled"
    ∷ refuse (is_negative r.db) "redis db must be >= 0"
    ∷ refuse (not (is_positive r.pool_size)) "redis pool size must be > 0"
    ∷ refuse (is_negative r.min_idle_conns) "redis min idle conns must be >= 0"
    ∷ refuse (int_lt r.pool_size r.min_idle_conns) "redis min idle conns cannot exceed pool size"
    ∷ refuse (not (is_positive r.dial_timeout)) "redis dial timeout must be > 0"
    ∷ refuse (not (is_positive r.read_timeout)) "redis read timeout must be > 0"
    ∷ refuse (not (is_positive r.write_timeout)) "redis write timeout must be > 0"
    ∷ refuse (not (is_positive r.startup_ping_timeout)) "redis startup ping timeout must be > 0"
    ∷ refuse (not (is_positive r.health_check_timeout)) "redis health check timeout must be > 0"
    ∷ []

abbrev pub metrics_token : Str → MetricsConfig → List Guard
metrics_token env m =
    refuse (is_prod_env env && (m.enabled && trim_space m.auth_token == []))
      "metrics auth token cannot be empty in prod when metrics is enabled"
    ∷ []

unfoldable pub lint_metrics : Str → MetricsConfig → List Guard
unfolding ◌==◌ each exclude_path is_prod_env trim_space
lint_metrics env m =
    refuse (m.path == []) "metrics path cannot be empty"
    ∷ refuse (not (starts_with b'/' m.path)) "metrics path must start with '/'"
    ∷ (each (exclude_path "metrics") m.exclude_paths ++ metrics_token env m)

abbrev tracing_tests : {F : Type 0} → Library F → TracingConfig F → List Guard
tracing_tests lib t =
    refuse (t.service_name == []) "tracing service name cannot be empty when enabled"
    ∷ refuse (t.otlp_endpoint == []) "tracing otlp endpoint cannot be empty when enabled"
    ∷ refuse (not (t.exporter == str "otlpgrpc")) "invalid tracing exporter"
    ∷ refuse (not (mem t.sampler (str "always_on" ∷ str "always_off" ∷ str "traceidratio" ∷ [])))
        "invalid tracing sampler"
    ∷ refuse
        (lib.float_lt t.sample_ratio lib.float_zero || lib.float_lt lib.float_one t.sample_ratio)
        "tracing sample ratio must be in [0,1]"
    ∷ []

unfoldable pub lint_tracing : {F : Type 0} → Library F → TracingConfig F → List Guard
unfolding ◌==◌ mem
lint_tracing lib t = if t.enabled then tracing_tests lib t else []

unfoldable pub lint_log : LogConfig → List Guard
unfolding ◌==◌ mem
lint_log l =
    refuse
      (not (
        mem l.level (
          str "debug"
          ∷ str "info"
          ∷ str "warn"
          ∷ str "warning"
          ∷ str "error"
          ∷ str "fatal"
          ∷ []
          ∷ [])))
      "invalid log level"
    ∷ refuse (not (mem l.format (str "json" ∷ str "text" ∷ [] ∷ []))) "invalid log format"
    ∷ []
