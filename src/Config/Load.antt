-- ===== src/Config/Load.antt =====
-- config.go, notify_smtp.go: Load. The value is `none` where the profile is unknown.
use superapi.Prelude.{
  Str, str, false, Option, none, some, [], ◌==◌, if◌then◌else◌, trim_space, to_lower,
}
use superapi.Prelude.Integer.{ℤ, pos}
use superapi.Config.Env.{
  Library, Environment, os_getenv, Defaults, resolve_profile_defaults, Source, getenv, get_bool,
  get_int, get_duration,
}
use superapi.Config.Types.{AuthConfig, TracingConfig, SmtpConfig, NotifyConfig, Config}
use superapi.Config.Sections.{
  is_prod_env, load_http, load_log, load_auth, load_rate_limit, load_cache, load_postgres,
  load_redis, load_metrics, load_tracing,
}

unfoldable pub default_smtp_port : Str → ℤ
unfolding ◌==◌
default_smtp_port mode =
    if mode == str "implicit" then pos 465 else if mode == str "none" then pos 25 else pos 587

abbrev smtp_with : Str → Source → SmtpConfig
smtp_with mode s = record {
  host = trim_space (getenv s "SMTP_HOST" []);
  port = get_int s "SMTP_PORT" (default_smtp_port mode);
  username = getenv s "SMTP_USERNAME" [];
  password = getenv s "SMTP_PASSWORD" [];
  from = trim_space (getenv s "SMTP_FROM" []);
  tls = mode;
  reset_url = trim_space (getenv s "NOTIFY_RESET_URL" []);
  verify_url = trim_space (getenv s "NOTIFY_VERIFY_URL" []);
}

unfoldable pub load_smtp : Source → SmtpConfig
unfolding getenv get_int default_smtp_port trim_space to_lower
load_smtp s = smtp_with (to_lower (trim_space (getenv s "SMTP_TLS" (str "starttls")))) s

unfoldable pub load_notify : {F : Type 0} → Library F → Source → NotifyConfig
unfolding getenv get_bool get_duration trim_space to_lower load_smtp
load_notify lib s = record {
  driver = to_lower (trim_space (getenv s "NOTIFY_DRIVER" (str "noop")));
  log_secrets = get_bool s "NOTIFY_LOG_SECRETS" false;
  timeout = get_duration lib s "NOTIFY_TIMEOUT" (pos 10_000_000_000);
  smtp = load_smtp s;
}

abbrev or_service : Str → Str → Str
or_service service_name name = if name == [] then service_name else name

-- A label that is empty is the service's name.
abbrev labelled_auth : Str → AuthConfig → AuthConfig
labelled_auth service_name a = record a { totp_issuer = or_service service_name a.totp_issuer }

abbrev labelled_tracing : {F : Type 0} → Str → TracingConfig F → TracingConfig F
labelled_tracing service_name t = record t { service_name = or_service service_name t.service_name }

abbrev pub load_from : {F : Type 0} → Library F → Str → Str → Str → Source → Config F
load_from lib env profile service_name s = record {
  env = env;
  profile = profile;
  service_name = service_name;
  http = load_http lib (is_prod_env env) s;
  log = load_log s;
  auth = labelled_auth service_name (load_auth env s);
  rate_limit = load_rate_limit lib (is_prod_env env) s;
  cache = load_cache lib (is_prod_env env) s;
  postgres = load_postgres lib s;
  redis = load_redis lib s;
  metrics = load_metrics s;
  tracing = labelled_tracing service_name (load_tracing lib (is_prod_env env) s);
  notify = load_notify lib s;
}

abbrev pub load_profile :
    {F : Type 0} → Library F → Environment → Str → Option Defaults → Option (Config F)
load_profile lib env profile none = none
load_profile lib env profile (some defaults) =
    let s : Source = record { env = env; defaults = defaults } in
    some (
      load_from lib (getenv s "APP_ENV" (str "dev")) profile
        (getenv s "APP_SERVICE_NAME" (str "api-template")) s)

unfoldable pub load : {F : Type 0} → Library F → Environment → Option (Config F)
unfolding os_getenv getenv trim_space ◌==◌ is_prod_env resolve_profile_defaults load_http load_log
    load_auth load_rate_limit load_cache load_postgres load_redis load_metrics load_tracing
    load_notify
load lib env =
    let profile = trim_space (os_getenv env "APP_PROFILE") in
    load_profile lib env profile (resolve_profile_defaults profile)
