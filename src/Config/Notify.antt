-- ===== src/Config/Notify.antt =====
-- notify_drivers.go, notify_smtp.go and the notifier's part of config.go. The accepted names of
-- drivers, which other packages add to, are an argument.
use superapi.Prelude.{
  Str, str, String, Bool, true, false, not, ◌&&◌, ◌||◌, Option, none, some, List, [], ◌∷◌, ◌++◌,
  ◌==◌, mem, eqb, if◌then◌else◌, trim_space, to_lower, equal_fold, sort_strings,
}
use superapi.Prelude.Integer.{ℤ, pos, int_lt}
use superapi.Prelude.Pieces.{contains_any, count, replace_first}
use superapi.Config.Env.{Library, Url}
use superapi.Config.Types.{AuthConfig, SmtpConfig, NotifyConfig}
use superapi.Config.Numbers.{atoi}
use superapi.Config.Sections.{is_dev_or_test_env}
use superapi.Config.Guards.{Guard, refuse, refuse_of, blanks}

abbrev pub built_in_drivers : List Str
built_in_drivers = str "log" ∷ str "noop" ∷ str "smtp" ∷ []

-- `none` is the panic at an empty name.
unfoldable pub register_notify_driver : Str → List Str → Option (List Str)
unfolding trim_space to_lower ◌==◌ mem
register_notify_driver name drivers =
    let key = to_lower (trim_space name) in
    if key == [] then none else if mem key drivers then some drivers else some (key ∷ drivers)

unfoldable pub notify_driver_names : List Str → List Str
unfolding sort_strings
notify_driver_names drivers = sort_strings drivers

unfoldable pub notify_driver_known : List Str → Str → Bool
unfolding trim_space to_lower mem
notify_driver_known drivers name = mem (to_lower (trim_space name)) drivers

unfoldable pub lint_notify_driver : List Str → NotifyConfig → List Guard
unfolding notify_driver_known
lint_notify_driver drivers n =
    refuse (not (notify_driver_known drivers n.driver)) "invalid notify driver" ∷ []

abbrev pub token_placeholder : Str
token_placeholder = str "{token}"

abbrev port_is_wrong : Option ℤ → Bool
port_is_wrong none = true
port_is_wrong (some n) = int_lt n (pos 1) || int_lt (pos 65535) n

abbrev url_tests : String → Option Url → List Guard
url_tests about none = refuse_of about true "is not a valid URL" ∷ []
url_tests about (some u) =
    refuse_of about (not (u.scheme == str "http") && not (u.scheme == str "https"))
      "must be an absolute http(s) URL"
    ∷ refuse_of about (u.hostname == []) "must include a host"
    ∷ refuse_of about (not (u.port == []) && port_is_wrong (atoi u.port)) "has an invalid port"
    ∷ []

unfoldable pub validate_link_template : {F : Type 0} → Library F → String → Str → List Guard
unfolding contains_any count replace_first ◌==◌ atoi
validate_link_template lib about tmpl =
    refuse_of about (contains_any tmpl blanks) "must not contain whitespace"
    ∷ refuse_of about (not (eqb (count tmpl token_placeholder) 1))
        "must contain {token} exactly once"
    ∷ url_tests about (lib.parse_url (replace_first tmpl token_placeholder (str "token")))

-- " /\\@:?#\r\n"
abbrev host_stops : Str
host_stops = 32 ∷ b'/' ∷ 92 ∷ b'@' ∷ b':' ∷ b'?' ∷ b'#' ∷ 13 ∷ 10 ∷ []

abbrev line_breaks : Str
line_breaks = 13 ∷ 10 ∷ []

abbrev same : Bool → Bool → Bool
same true b = b
same false b = not b

abbrev link_tests : {F : Type 0} → Library F → String → Str → List Guard
link_tests lib about tmpl = if tmpl == [] then [] else validate_link_template lib about tmpl

abbrev smtp_tests : {F : Type 0} → Library F → Str → AuthConfig → SmtpConfig → List Guard
smtp_tests lib env a s =
    refuse (s.host == []) "NOTIFY_DRIVER=smtp requires SMTP_HOST"
    ∷ refuse (contains_any s.host host_stops) "SMTP_HOST must be a bare host name or IP address"
    ∷ refuse (int_lt s.port (pos 1) || int_lt (pos 65535) s.port)
        "SMTP_PORT must be between 1 and 65535"
    ∷ refuse (s.tls == str "none" && not (equal_fold (trim_space env) (str "dev")))
        "SMTP_TLS=none sends mail and credentials in the clear"
    ∷ refuse
        (not (s.tls == str "starttls")
          && not (s.tls == str "implicit")
          && not (s.tls == str "none"))
        "invalid SMTP_TLS"
    ∷ refuse (not (same (s.username == []) (s.password == [])))
        "SMTP_USERNAME and SMTP_PASSWORD must be set together"
    ∷ refuse (contains_any (s.username ++ s.password) line_breaks)
        "SMTP_USERNAME and SMTP_PASSWORD must not contain line breaks"
    ∷ refuse (s.from == []) "NOTIFY_DRIVER=smtp requires SMTP_FROM"
    ∷ refuse (contains_any s.from line_breaks) "SMTP_FROM must not contain line breaks"
    ∷ refuse (not (lib.is_address s.from)) "SMTP_FROM is not a valid address"
    ∷ refuse (a.password_reset_enabled && s.reset_url == [])
        "AUTH_PASSWORD_RESET_ENABLED with NOTIFY_DRIVER=smtp requires NOTIFY_RESET_URL"
    ∷ refuse (a.email_verification_enabled && s.verify_url == [])
        "AUTH_EMAIL_VERIFICATION_ENABLED with NOTIFY_DRIVER=smtp requires NOTIFY_VERIFY_URL"
    ∷ (link_tests lib "NOTIFY_RESET_URL" s.reset_url
        ++ link_tests lib "NOTIFY_VERIFY_URL" s.verify_url)

unfoldable pub lint_smtp : {F : Type 0} → Library F → Str → AuthConfig → NotifyConfig → List Guard
unfolding trim_space to_lower ◌==◌ equal_fold contains_any validate_link_template
lint_smtp lib env a n =
    if not (to_lower (trim_space n.driver) == str "smtp") then [] else smtp_tests lib env a n.smtp

unfoldable pub notify_delivery_flags : AuthConfig → List String
notify_delivery_flags a =
    (if a.password_reset_enabled then "AUTH_PASSWORD_RESET_ENABLED" ∷ [] else [])
    ++ (if a.email_verification_enabled then "AUTH_EMAIL_VERIFICATION_ENABLED" ∷ [] else [])

unfoldable pub uses_noop_notifier : NotifyConfig → Bool
unfolding trim_space to_lower ◌==◌
uses_noop_notifier n =
    let driver = to_lower (trim_space n.driver) in driver == [] || driver == str "noop"

abbrev pub no_flags : List String → Bool
no_flags [] = true
no_flags (f ∷ fs) = false

unfoldable pub lint_notify_delivery : Str → AuthConfig → NotifyConfig → List Guard
unfolding notify_delivery_flags uses_noop_notifier is_dev_or_test_env
lint_notify_delivery env a n =
    refuse
      (not (
        no_flags (notify_delivery_flags a) || not (uses_noop_notifier n) || is_dev_or_test_env env))
      "needs a notifier that delivers messages, but NOTIFY_DRIVER is noop"
    ∷ []

-- The features of which a warning at startup says that they cannot complete.
unfoldable pub warnings : AuthConfig → NotifyConfig → List String
unfolding notify_delivery_flags uses_noop_notifier
warnings a n = if uses_noop_notifier n then notify_delivery_flags a else []
