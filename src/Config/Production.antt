-- ===== src/Config/Production.antt =====
-- The settings of a configuration that passes Lint in production.
use superapi.Prelude.{
  Str, Bool, true, false, not, ◌&&◌, ◌||◌, ◌≡◌, refl, ap, subst, ◌∙◌, Option, none, some, List, [],
  ◌++◌, ◌==◌, All, trim_space, arith,
}
use superapi.Prelude.Places.{All-at}
use superapi.Config.Env.{Library, Environment, os_getenv, resolve_profile_defaults, Defaults}
use superapi.Config.Types.{Config}
use superapi.Config.Load.{load_profile, load}
use superapi.Config.Sections.{is_prod_env, is_dev_or_test_env, load_auth}
use superapi.Config.Guards.{
  Passes, first_error-none, concat, All-concat, All-append-Passes, All-drop-Passes, Passes-at,
  contains_wildcard, each, exclude_path,
}
use superapi.Config.Notify.{
  uses_noop_notifier, notify_delivery_flags, no_flags, lint_smtp, lint_notify_delivery,
  lint_notify_driver,
}
use superapi.Config.WebAuthn.{lint_web_authn}
use superapi.Config.Totp.{totp_keyring}
use superapi.Config.Parts.{
  lint_http, lint_cors, lint_notify, lint_limits, lint_metrics, metrics_token, notifier_tests,
}
use superapi.Config.AuthParts.{lint_auth, lint_auth_features, override_tests, keyring_tests}
use superapi.Config.Lint.{lint_parts, lint}
use superapi.Config.EnvNames.{is_prod_env-not_dev, is_prod_env-not_equal_fold}

from_some : {A : Type 0} → A → Option A → A
from_some a none = a
from_some a (some b) = b

module _ {F : Type 0} (lib : Library F) where
  load_profile-overrides :
      (env : Environment) (profile : Str) (o : Option Defaults) (c : Config F)
      → load_profile lib env profile o ≡ some c
      → c.auth.test_overrides_allowed ≡ is_dev_or_test_env c.env
  unfolding load_auth from_some
  load_profile-overrides env profile none c h = ground arith
  load_profile-overrides env profile (some d) c h =
      subst (λ x. x.auth.test_overrides_allowed ≡ is_dev_or_test_env x.env) (ap (from_some c) h)
        refl

  load-overrides :
      (env : Environment) (c : Config F)
      → load lib env ≡ some c
      → c.auth.test_overrides_allowed ≡ is_dev_or_test_env c.env
  unfolding load
  load-overrides env c h =
      load_profile-overrides env (trim_space (os_getenv env "APP_PROFILE"))
        (resolve_profile_defaults (trim_space (os_getenv env "APP_PROFILE"))) c h

  -- All the parts of Lint have passed.
  pub lint-Passes :
      (drivers : List Str) (env : Environment) (c : Config F)
      → lint lib drivers env c ≡ none
      → All (All Passes) (lint_parts lib drivers env c)
  unfolding lint
  lint-Passes drivers env c h =
      All-concat (lint_parts lib drivers env c)
        (first_error-none (concat (lint_parts lib drivers env c)) h)

-- The settings that Lint insists on in production.
pub record IsSafe {F : Type 0} (env : Environment) (c : Config F) : Type 0 where
  pub limiter_fail_open_off : c.rate_limit.enabled && c.rate_limit.fail_open ≡ false
  pub cache_fail_open_off : c.cache.enabled && c.cache.fail_open ≡ false
  pub metrics_token_set : c.metrics.enabled && trim_space c.metrics.auth_token == [] ≡ false
  pub log_secrets_off : c.notify.log_secrets ≡ false
  pub not_noop :
      not (no_flags (notify_delivery_flags c.auth)) && uses_noop_notifier c.notify ≡ false
  pub auth_backed : c.auth.enabled && not (c.redis.enabled && c.postgres.enabled) ≡ false
  pub origins_named :
      c.http.middleware.cors.allow_credentials
        && contains_wildcard c.http.middleware.cors.allow_origins
      ≡ false
  pub no_override : trim_space (os_getenv env "AUTH_TEST_SHARED_SECRET") == [] ≡ true

and_true-left : (a b : Bool) → a ≡ true → a && b ≡ false → b ≡ false
and_true-left a b t h = ground arith

both_backed : (a r p : Bool) → a && not r ≡ false → a && not p ≡ false → a && not (r && p) ≡ false
both_backed a r p h k = ground arith

not_overridden : (allowed b : Bool) → allowed ≡ false → not allowed && not b ≡ false → b ≡ true
not_overridden allowed b c h = ground arith

hidden : (secrets dev : Bool) → dev ≡ false → secrets && not dev ≡ false → secrets ≡ false
hidden secrets dev d h = ground arith

delivered :
    (none_on noop dev : Bool)
    → dev ≡ false
    → not (none_on || not noop || dev) ≡ false
    → not none_on && noop ≡ false
delivered none_on noop dev d h = ground arith

module _ {F : Type 0} (lib : Library F) (c : Config F) where
  limits-closed :
      is_prod_env c.env ≡ true
      → All Passes (lint_limits c.env c.redis c.rate_limit c.cache)
      → (c.rate_limit.enabled && c.rate_limit.fail_open ≡ false)
        × (c.cache.enabled && c.cache.fail_open ≡ false)
  unfolding lint_limits
  limits-closed p h = (
    and_true-left _ _ p (Passes-at 5 (lint_limits c.env c.redis c.rate_limit c.cache) _ h refl),
    and_true-left _ _ p (Passes-at 6 (lint_limits c.env c.redis c.rate_limit c.cache) _ h refl),
  )

  metrics-guarded :
      is_prod_env c.env ≡ true
      → All Passes (lint_metrics c.env c.metrics)
      → c.metrics.enabled && trim_space c.metrics.auth_token == [] ≡ false
  unfolding lint_metrics
  metrics-guarded p h =
      let from_paths = All-drop-Passes 2 (lint_metrics c.env c.metrics) h in
      let last =
        All-append-Passes (each (exclude_path "metrics") c.metrics.exclude_paths)
          (metrics_token c.env c.metrics) from_paths in
      and_true-left _ _ p (Passes-at 0 (metrics_token c.env c.metrics) _ last.1 refl)

  http-origins :
      All Passes (lint_http lib c.service_name c.cache c.http)
      → c.http.middleware.cors.allow_credentials
          && contains_wildcard c.http.middleware.cors.allow_origins
        ≡ false
  unfolding lint_http lint_cors
  http-origins h = Passes-at 13 (lint_http lib c.service_name c.cache c.http) _ h refl

  auth-backed :
      (env : Environment)
      → c.auth.test_overrides_allowed ≡ false
      → All Passes (lint_auth lib env c.postgres c.redis c.auth)
      → (c.auth.enabled && not (c.redis.enabled && c.postgres.enabled) ≡ false)
        × (trim_space (os_getenv env "AUTH_TEST_SHARED_SECRET") == [] ≡ true)
  unfolding lint_auth lint_auth_features
  auth-backed env closed h =
      let redis = Passes-at 1 (lint_auth lib env c.postgres c.redis c.auth) _ h refl in
      let postgres = Passes-at 2 (lint_auth lib env c.postgres c.redis c.auth) _ h refl in
      let features =
        All-append-Passes (lint_auth_features lib env c.auth) (lint_web_authn lib env)
          (All-drop-Passes 3 (lint_auth lib env c.postgres c.redis c.auth) h) in
      let overrides =
        All-append-Passes (keyring_tests c.auth.totp_enabled (totp_keyring lib c.auth))
          (override_tests env c.auth.test_overrides_allowed)
          (All-drop-Passes 5 (lint_auth_features lib env c.auth) features.0) in
      let secret =
        Passes-at 0 (override_tests env c.auth.test_overrides_allowed) _ overrides.1 refl in
      (
        both_backed c.auth.enabled c.redis.enabled c.postgres.enabled redis postgres,
        not_overridden c.auth.test_overrides_allowed _ closed secret,
      )

  notify-delivered :
      (drivers : List Str)
      → is_prod_env c.env ≡ true
      → All Passes (lint_notify lib drivers c.env c.auth c.notify)
      → (c.notify.log_secrets ≡ false)
        × (not (no_flags (notify_delivery_flags c.auth)) && uses_noop_notifier c.notify ≡ false)
  unfolding lint_notify lint_notify_delivery
  notify-delivered drivers p h =
      let smtp =
        All-append-Passes (lint_notify_driver drivers c.notify)
          (lint_smtp lib c.env c.auth c.notify
            ++ (lint_notify_delivery c.env c.auth c.notify ++ notifier_tests c.env c.notify))
          h in
      let delivery =
        All-append-Passes (lint_smtp lib c.env c.auth c.notify)
          (lint_notify_delivery c.env c.auth c.notify ++ notifier_tests c.env c.notify) smtp.1 in
      let last =
        All-append-Passes (lint_notify_delivery c.env c.auth c.notify)
          (notifier_tests c.env c.notify) delivery.1 in
      (
        hidden c.notify.log_secrets _ (is_prod_env-not_equal_fold c.env p)
            (Passes-at 0 (notifier_tests c.env c.notify) _ last.1 refl),
        delivered (no_flags (notify_delivery_flags c.auth)) (uses_noop_notifier c.notify) _
            (is_prod_env-not_dev c.env p)
            (Passes-at 0 (lint_notify_delivery c.env c.auth c.notify) _ last.0 refl),
      )

-- A configuration that Load makes and Lint lets pass, in an environment of production: the settings
-- of the rate limiter and of the cache, where these are enabled, do not say fail-open; enabled metrics
-- have a token that is not blank; NOTIFY_LOG_SECRETS is off; the driver of notifications is not noop
-- where password resets or email verification are on; enabled authentication has both Redis and
-- Postgres enabled; cross-origin credentials do not go with a wildcard among the allowed origins; and
-- no shared secret for tests is set in the environment.
pub lint-IsSafe :
    {F : Type 0} (lib : Library F) (drivers : List Str) (env : Environment) (c : Config F)
    → load lib env ≡ some c
    → lint lib drivers env c ≡ none
    → is_prod_env c.env ≡ true
    → IsSafe env c
lint-IsSafe lib drivers env c loaded passed p =
    let closed = load-overrides lib env c loaded ∙ is_prod_env-not_dev c.env p in
    let all_parts = lint-Passes lib drivers env c passed in
    let http = All-at (All Passes) 1 (lint_parts lib drivers env c) _ all_parts refl in
    let auth = All-at (All Passes) 2 (lint_parts lib drivers env c) _ all_parts refl in
    let notify = All-at (All Passes) 3 (lint_parts lib drivers env c) _ all_parts refl in
    let limits = All-at (All Passes) 4 (lint_parts lib drivers env c) _ all_parts refl in
    let metrics = All-at (All Passes) 8 (lint_parts lib drivers env c) _ all_parts refl in
    let limited = limits-closed lib c p limits in
    let notified = notify-delivered lib c drivers p notify in
    let backed = auth-backed lib c env closed auth in
    record {
      limiter_fail_open_off = limited.0;
      cache_fail_open_off = limited.1;
      metrics_token_set = metrics-guarded lib c p metrics;
      log_secrets_off = notified.0;
      not_noop = notified.1;
      auth_backed = backed.0;
      origins_named = http-origins lib c http;
      no_override = backed.1;
    }
