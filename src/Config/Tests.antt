-- ===== src/Config/Tests.antt =====
-- Runs of Load and Lint, and the theorems at concrete inputs.
use text.Mathlib.Text.{◌==◌ as str_eq}
use superapi.Prelude.{
  ℕ, Str, str, String, true, false, ◌≡◌, refl, Option, none, some, List, [], ◌∷◌, ltb,
  if◌then◌else◌,
}
use superapi.Prelude.Integer.{ℤ, pos}
use superapi.Secrets.{cipher}
use superapi.Config.Env.{Library, Environment, Source, prod_defaults, get_bool}
use superapi.Config.Types.{Config, AuthConfig}
use superapi.Config.Load.{load, load_from}
use superapi.Config.Sections.{load_auth, is_prod_env}
use superapi.Config.Notify.{built_in_drivers}
use superapi.Config.Totp.{ok, TotpKeyring, default_totp_key_id, totp_keyring, cipher_of_ring}
use superapi.Config.Totp.Accepted.{totp_keyring-accepted}
use superapi.Config.Lint.{Variable, a_bool, lint}
use superapi.Config.Production.{IsSafe, lint-IsSafe}
use superapi.Prelude.Places.{get_elem?}
use superapi.Config.Fields.{Field, fields, variable_of}
use superapi.Config.Loaded.{Holds, lint-Holds}

-- Rates in thousandths; a text that is not empty is one second, or the rate 50.
abbrev seconds : Str → Option ℤ
seconds [] = none
seconds (c ∷ s) = some (pos 1_000_000_000)

abbrev rates : Str → Option ℕ
rates [] = none
rates (c ∷ s) = some 50

abbrev library : Library ℕ
library = record {
  parse_duration = seconds;
  parse_float = rates;
  float_lt = ltb;
  float_zero = 0;
  float_one = 1000;
  five_percent = 50;
  parse_url = λ s. none;
  is_cidr = λ s. true;
  is_ip = λ s. false;
  is_address = λ s. true;
  is_uint = λ s. false;
  base64_std = λ s. some s;
  base64_raw_std = λ s. none;
  base64_url = λ s. none;
  base64_raw_url = λ s. none;
}

variables : List (String × String) → Environment
variables [] key = none
variables (d ∷ rest) key =
    let later = variables rest key in if str_eq d.0 key then some (str d.1) else later

abbrev production : List (String × String)
production = ("APP_ENV", "prod") ∷ ("METRICS_AUTH_TOKEN", "secret") ∷ ("REDIS_ENABLED", "true") ∷ []

prod_env : Environment
unfolding variables
prod_env = variables production

prod_source : Source
unfolding prod_env
prod_source = record { env = prod_env; defaults = [] }

prod_config : Config ℕ
unfolding prod_source
prod_config = load_from library (str "prod") [] (str "api-template") prod_source

prod_loads : load library prod_env ≡ some prod_config
unfolding load prod_config
prod_loads = refl

prod_passes : lint library built_in_drivers prod_env prod_config ≡ none
unfolding lint prod_config load
prod_passes = refl

prod_is_prod : is_prod_env prod_config.env ≡ true
unfolding is_prod_env prod_config
prod_is_prod = refl

lint-IsSafe_example : IsSafe prod_env prod_config
lint-IsSafe_example =
    lint-IsSafe library built_in_drivers prod_env prod_config prod_loads prod_passes prod_is_prod

redis_is_set : prod_env "REDIS_ENABLED" ≡ some (str "true")
unfolding prod_env
redis_is_set = refl

abbrev redis_enabled : Variable
redis_enabled = record { kind = a_bool; key = "REDIS_ENABLED" }

lint-Holds_example :
    (f : Field ℕ) × (get_elem? 34 (fields ℕ) ≡ some f)
    × (variable_of f ≡ redis_enabled)
    × Holds library prod_config (str "true") f
lint-Holds_example =
    lint-Holds library built_in_drivers prod_env prod_config 34 redis_enabled (str "true") refl refl
      prod_loads prod_passes refl redis_is_set

-- Fail-open is refused in production.
open_limits : Environment
unfolding variables
open_limits =
    variables (("RATELIMIT_ENABLED", "true") ∷ ("RATELIMIT_FAIL_OPEN", "true") ∷ production)

open_config : Config ℕ
unfolding open_limits
open_config =
    load_from library (str "prod") [] (str "api-template")
      (record { env = open_limits; defaults = [] })

open_is_refused :
    lint library built_in_drivers open_limits open_config
    ≡ some (record { about = ""; what = "ratelimit fail-open cannot be enabled in prod" })
unfolding lint open_config load
open_is_refused = refl

-- The profile of production alone passes, with the token that stands in the source.
profile_env : Environment
unfolding variables
profile_env = variables (("APP_PROFILE", "prod") ∷ [])

profile_config : Config ℕ
unfolding profile_env
profile_config =
    load_from library (str "prod") (str "prod") (str "api-template")
      (record { env = profile_env; defaults = prod_defaults })

profile_loads : load library profile_env ≡ some profile_config
unfolding load profile_config
profile_loads = refl

profile_passes : lint library built_in_drivers profile_env profile_config ≡ none
unfolding lint profile_config load
profile_passes = refl

profile_token : profile_config.metrics.auth_token ≡ str "change-me"
unfolding profile_config load
profile_token = refl

-- A variable that Lint does not read again takes its fallback where it does not parse.
ignored :
    get_bool
      (record { env = variables (("CACHE_ENABLED", "yes") ∷ []); defaults = [] })
      "CACHE_ENABLED"
      false
    ≡ false
unfolding get_bool variables
ignored = refl

abbrev key_text : Str
key_text = str "0123456789abcdef0123456789abcdef"

totp_auth : AuthConfig
unfolding variables load_auth
totp_auth = load_auth (str "prod") (record {
  env = variables (
      ("AUTH_TOTP_ENCRYPTION_KEY", "0123456789abcdef0123456789abcdef")
      ∷ ("AUTH_TOTP_ENCRYPTION_KEYS", "k2: 0123456789abcdef0123456789abcdef")
      ∷ ("AUTH_TOTP_ENCRYPTION_ACTIVE_KID", "k2")
      ∷ []);
  defaults = [];
})

abbrev totp_ring : TotpKeyring
totp_ring = record {
  keys = (default_totp_key_id, key_text) ∷ (str "k2", key_text) ∷ [];
  active_kid = str "k2";
  legacy_key = some key_text;
}

totp_ring_read : totp_keyring library totp_auth ≡ ok totp_ring
unfolding totp_keyring totp_auth
totp_ring_read = refl

totp_keyring-accepted_example :
    cipher_of_ring totp_ring
    ≡ cipher (record { active = str "k2"; aeads = totp_ring.keys; legacy = some key_text })
totp_keyring-accepted_example = totp_keyring-accepted library totp_auth totp_ring totp_ring_read
