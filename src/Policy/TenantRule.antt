-- ===== src/Policy/TenantRule.antt =====
-- internal/tenancy/rules.go, RouteRule: what tenancy adds to the route validator. An index that is
-- -1 in the source is `none`.
pub mod Loop
pub mod Sound
use superapi.Prelude.{
  ℕ, suc, Str, String, str, Bool, true, false, not, ◌&&◌, ◌||◌, Option, none, some, List, [], ◌∷◌,
  ◌++◌, ◌==◌, Dict, lookup, ltb, trim_space, to_lower, contains, if◌then◌else◌,
}
use superapi.Policy.Metadata.{Metadata, policy_type_auth_required}
use superapi.Policy.Validator.{RouteRule}

abbrev pub policy_type_tenant_required : Str
policy_type_tenant_required = str "tenant_required"

abbrev pub policy_type_tenant_match_from_path : Str
policy_type_tenant_match_from_path = str "tenant_match_from_path"

-- tenantIDParam
abbrev pub tenant_id_param : Str
tenant_id_param = str "tenant_id"

-- DataPathParam
abbrev pub data_path_param : Str
data_path_param = str "tenant_path_param"

-- The variables of the loop.
pub record Scan : Type 0 where
  pub required_at : Option ℕ
  pub match_at : Option ℕ
  pub matches : List Metadata
  pub has_auth : Bool

abbrev pub first_of : Option ℕ → ℕ → Option ℕ
first_of none i = some i
first_of (some j) i = some j

unfoldable pub scan_one : ℕ → Metadata → Scan → Scan
unfolding ◌==◌
scan_one i m s =
    if m.policy_type == policy_type_auth_required
    then record {
      required_at = s.required_at;
      match_at = s.match_at;
      matches = s.matches;
      has_auth = true;
    }
    else if m.policy_type == policy_type_tenant_required
    then record {
      required_at = first_of s.required_at i;
      match_at = s.match_at;
      matches = s.matches;
      has_auth = s.has_auth;
    }
    else if m.policy_type == policy_type_tenant_match_from_path
    then record {
      required_at = s.required_at;
      match_at = first_of s.match_at i;
      matches = s.matches ++ m ∷ [];
      has_auth = s.has_auth;
    }
    else s

unfoldable pub scan : ℕ → List Metadata → Scan → Scan
unfolding scan_one
scan i [] s = s
scan i (m ∷ ms) s = scan (suc i) ms (scan_one i m s)

abbrev pub new_scan : Scan
new_scan = record { required_at = none; match_at = none; matches = []; has_auth = false }

unfoldable pub pattern_contains_tenant_id : Str → Bool
unfolding contains to_lower trim_space
pattern_contains_tenant_id pattern =
    contains (to_lower (trim_space pattern)) (str "{" ++ tenant_id_param ++ str "}")

-- m.Data[DataPathParam], which is empty where the key is missing.
abbrev pub or_blank : Option Str → Str
or_blank none = []
or_blank (some s) = s

unfoldable pub path_param : Metadata → Str
unfolding to_lower trim_space lookup
path_param m = to_lower (trim_space (or_blank (lookup data_path_param m.annotations)))

abbrev pub wrong_param : Str → Str
wrong_param pattern =
    policy_type_tenant_match_from_path
    ++ str " for route "
    ++ pattern
    ++ str " must use path param \"tenant_id\""

-- The loop over the matches.
unfoldable pub all_match_tenant_id : Str → List Metadata → Option Str
unfolding path_param ◌==◌
all_match_tenant_id pattern [] = none
all_match_tenant_id pattern (m ∷ ms) =
    let rest = all_match_tenant_id pattern ms in
    if not (path_param m == tenant_id_param) then some (wrong_param pattern) else rest

abbrev pub auth_is_required : Str
auth_is_required =
    policy_type_auth_required ++ str " is required when RBAC or tenant policies are configured"

abbrev pub tenant_is_required : Str
tenant_is_required =
    policy_type_tenant_match_from_path ++ str " requires " ++ policy_type_tenant_required

abbrev pub match_comes_first : Str
match_comes_first =
    str "policy "
    ++ policy_type_tenant_match_from_path
    ++ str " must appear after "
    ++ policy_type_tenant_required

abbrev pub route_requires : Str → Str → Str
route_requires pattern policy_type = str "route " ++ pattern ++ str " requires " ++ policy_type

-- The checks after the loop, on a path that must be guarded.
abbrev pub strict_checks : Str → Option ℕ → List Metadata → Option Str
strict_checks pattern none matches = some (route_requires pattern policy_type_tenant_required)
strict_checks pattern (some i) [] = some (route_requires pattern policy_type_tenant_match_from_path)
strict_checks pattern (some i) (m ∷ ms) = all_match_tenant_id pattern (m ∷ ms)

abbrev pub is_before : Option ℕ → Option ℕ → Bool
is_before (some i) (some j) = ltb i j
is_before _ _ = false

abbrev pub is_set : Option ℕ → Bool
is_set none = false
is_set (some i) = true

abbrev pub is_empty : List Metadata → Bool
is_empty [] = true
is_empty (m ∷ ms) = false

unfoldable pub check_scan : Bool → Str → Scan → Option Str
unfolding all_match_tenant_id pattern_contains_tenant_id
check_scan strict_paths pattern s =
    if is_set s.required_at && not s.has_auth
    then some auth_is_required
    else if not (is_empty s.matches) && not (is_set s.required_at)
    then some tenant_is_required
    else if is_before s.match_at s.required_at
    then some match_comes_first
    else if strict_paths && pattern_contains_tenant_id pattern
    then strict_checks pattern s.required_at s.matches
    else none

unfoldable pub route_rule : Bool → RouteRule
unfolding scan check_scan
route_rule strict_paths method pattern ms = check_scan strict_paths pattern (scan 0 ms new_scan)
