-- ===== src/Config/AuthParts.antt =====
-- config.go: the tests of authentication in Lint.
use superapi.Prelude.{
  Str, str, String, Bool, true, false, not, ◌&&◌, List, [], ◌∷◌, ◌++◌, ◌==◌, mem, trim_space,
  to_lower,
}
use superapi.Config.Env.{Library, Environment, os_getenv}
use superapi.Config.Types.{AuthConfig, PostgresConfig, RedisConfig}
use superapi.Config.Guards.{Guard, refuse, refuse_of}
use superapi.Config.Totp.{Result, ok, failed, TotpKeyring, totp_keyring}
use superapi.Config.WebAuthn.{lint_web_authn}

abbrev pub auth_modes : List Str
auth_modes = str "jwt_only" ∷ str "jwt-only" ∷ str "jwtonly" ∷ str "hybrid" ∷ str "strict" ∷ [] ∷ []

abbrev pub keyring_tests : Bool → Result TotpKeyring → List Guard
keyring_tests false r = []
keyring_tests true (ok ring) = []
keyring_tests true (failed m) = record { refused = true; message = m } ∷ []

abbrev pub override_test : Environment → Bool → String → Guard
override_test env allowed key =
    refuse_of key (not allowed && not (trim_space (os_getenv env key) == []))
      "is a performance-testing override"

abbrev pub override_tests : Environment → Bool → List Guard
override_tests env allowed =
    override_test env allowed "AUTH_TEST_SHARED_SECRET"
    ∷ override_test env allowed "AUTH_TEST_ACCESS_TTL"
    ∷ override_test env allowed "AUTH_TEST_REFRESH_TTL"
    ∷ []

unfoldable pub lint_auth_features : {F : Type 0} → Library F → Environment → AuthConfig → List Guard
unfolding totp_keyring os_getenv trim_space ◌==◌
lint_auth_features lib env a =
    refuse_of "AUTH_REGISTRATION_ENABLED" (a.registration_enabled && not a.enabled)
      "requires AUTH_ENABLED=true"
    ∷ refuse_of "AUTH_PASSWORD_RESET_ENABLED" (a.password_reset_enabled && not a.enabled)
        "requires AUTH_ENABLED=true"
    ∷ refuse_of "AUTH_EMAIL_VERIFICATION_ENABLED" (a.email_verification_enabled && not a.enabled)
        "requires AUTH_ENABLED=true"
    ∷ refuse_of "AUTH_TOTP_ENABLED" (a.totp_enabled && not a.enabled) "requires AUTH_ENABLED=true"
    ∷ refuse_of "AUTH_REGISTRATION_AUTO_LOGIN"
        (a.registration_auto_login && not a.registration_enabled)
        "requires AUTH_REGISTRATION_ENABLED=true"
    ∷ (keyring_tests a.totp_enabled (totp_keyring lib a)
        ++ override_tests env a.test_overrides_allowed)

unfoldable pub lint_auth :
    {F : Type 0} → Library F → Environment → PostgresConfig → RedisConfig → AuthConfig → List Guard
unfolding mem ◌==◌ to_lower trim_space lint_auth_features lint_web_authn
lint_auth lib env postgres redis a =
    refuse (not (mem (to_lower (trim_space a.mode)) auth_modes)) "invalid auth mode"
    ∷ refuse (a.enabled && not redis.enabled) "auth enabled requires redis enabled"
    ∷ refuse (a.enabled && not postgres.enabled) "auth enabled requires postgres enabled"
    ∷ (lint_auth_features lib env a ++ lint_web_authn lib env)
