-- ===== src/Policy/Tests.antt =====
-- The registry and the route validator on small routes, and the theorems at them.
use superapi.Prelude.{
  ℕ, Str, String, str, ◌≡◌, ◌≢◌, ◌↔◌, refl, sym, Bool, true, false, Option, none, some, List, [],
  ◌∷◌, ◌⊎◌, inl, inr, All, trim_space,
}
use superapi.Policy.Metadata.{
  Metadata, IsCompleted, no_cache_read, named, Registry, annotate_policy, describe_policy,
  describe_policies, metas, failed, not_annotated, AreDescribed, policy_type_auth_required,
  policy_type_rate_limit, policy_type_cache_read, describe_policy-annotate_policy,
  describe_policies-AreDescribed,
}
use superapi.Policy.Validator.{validate_route_metadata_with, validate_route_with, stage_isolation}
use superapi.Policy.Validator.Accepts.{IsAcceptable, validate_route_metadata_with_iff}
use superapi.Policy.TenantRule.{
  policy_type_tenant_required, policy_type_tenant_match_from_path, data_path_param, route_rule,
  pattern_contains_tenant_id,
}
use superapi.Policy.TenantRule.Loop.{InOrder, MatchesTenantId, IsStaged, auth≢required, auth≢match}
use superapi.Policy.TenantRule.Sound.{tenant_route_is_isolated}

abbrev auth : Metadata
auth = named policy_type_auth_required (str "AuthRequired")

abbrev isolation : Str → String → Metadata
isolation policy_type name = record {
  policy_type = policy_type;
  name = str name;
  cache_read = no_cache_read;
  tag_spec_count = 0;
  stage = stage_isolation;
  annotations = (data_path_param, str "tenant_id") ∷ [];
}

abbrev tenant : Metadata
tenant = isolation policy_type_tenant_required "TenantRequired"

abbrev matching : Metadata
matching = isolation policy_type_tenant_match_from_path "TenantMatchFromPath"

abbrev limit : Metadata
limit = named policy_type_rate_limit (str "RateLimit")

abbrev cached : Bool → Metadata
cached by_user = record {
  policy_type = policy_type_cache_read;
  name = str "CacheRead";
  cache_read = record {
    allow_authenticated = true;
    vary_by_user_id = by_user;
    vary_by_identity_part = false;
  };
  tag_spec_count = 1;
  stage = 0;
  annotations = [];
}

abbrev pattern : Str
pattern = str "/api/v1/tenants/{tenant_id}/projects"

abbrev checked : List Metadata → Option Str
checked ms = validate_route_metadata_with (some (route_rule true) ∷ []) (str "get") pattern ms

guarded : checked (auth ∷ tenant ∷ matching ∷ limit ∷ cached true ∷ []) ≡ none
unfolding validate_route_metadata_with route_rule
guarded = refl

no_auth :
    checked (tenant ∷ matching ∷ [])
    ≡ some (str "auth_required is required when RBAC or tenant policies are configured")
unfolding validate_route_metadata_with route_rule
no_auth = refl

out_of_order :
    checked (limit ∷ auth ∷ []) ≡ some (str "policy AuthRequired cannot appear after rate_limit")
unfolding validate_route_metadata_with route_rule
out_of_order = refl

match_first :
    checked (auth ∷ matching ∷ tenant ∷ [])
    ≡ some (str "policy tenant_match_from_path must appear after tenant_required")
unfolding validate_route_metadata_with route_rule
match_first = refl

shared_cache :
    validate_route_metadata_with [] (str "GET") (str "/x") (auth ∷ cached false ∷ [])
    ≡ some (
        str
          "cache_read on authenticated routes requires VaryBy.UserID or an identity-bearing VaryBy.Parts entry")
unfolding validate_route_metadata_with
shared_cache = refl

-- A route with the tenant's parameter and no policies at all.
unguarded : checked [] ≡ none
unfolding validate_route_metadata_with
unguarded = refl

abbrev annotated : Registry
annotated =
    (2, named policy_type_rate_limit (str "RateLimit"))
    ∷ (1, named policy_type_auth_required (str "AuthRequired"))
    ∷ []

described : describe_policies (some 1 ∷ some 2 ∷ []) annotated ≡ metas (auth ∷ limit ∷ [])
unfolding describe_policies
described = refl

not_described : describe_policies (some 1 ∷ some 3 ∷ none ∷ []) annotated ≡ failed (not_annotated 1)
unfolding describe_policies
not_described = refl

validated :
    validate_route_with
      (λ e. str "invalid")
      annotated
      []
      (str " get ")
      (str "/x")
      (some 1 ∷ some 2 ∷ [])
    ≡ none
unfolding validate_route_with
validated = refl

-- Two policies of one constructor have one code pointer, and the second annotation counts for both.
describe_policy-annotate_policy_example :
    ((◌≡◌ {A = ℕ} 7 7)
      × (m : Metadata) × (describe_policy
            (some 7)
            (annotate_policy (some 7) (cached true) ((7, cached false) ∷ []))
          ≡ some m)
      × IsCompleted (cached true) m)
    ⊎ ((◌≢◌ {A = ℕ} 7 7)
        × (describe_policy
              (some 7)
              (annotate_policy (some 7) (cached true) ((7, cached false) ∷ []))
            ≡ describe_policy (some 7) ((7, cached false) ∷ [])))
describe_policy-annotate_policy_example =
    describe_policy-annotate_policy 7 7 (cached true) ((7, cached false) ∷ [])

describe_policies-AreDescribed_example :
    AreDescribed annotated (some 1 ∷ some 2 ∷ []) (auth ∷ limit ∷ [])
describe_policies-AreDescribed_example =
    describe_policies-AreDescribed annotated (some 1 ∷ some 2 ∷ []) (auth ∷ limit ∷ []) described

validate_route_metadata_with_iff_example :
    (checked (auth ∷ tenant ∷ matching ∷ limit ∷ cached true ∷ []) ≡ none)
    ↔ IsAcceptable
        (str "get")
        pattern
        (auth ∷ tenant ∷ matching ∷ limit ∷ cached true ∷ [])
        (some (route_rule true) ∷ [])
validate_route_metadata_with_iff_example =
    validate_route_metadata_with_iff (some (route_rule true) ∷ []) (str "get") pattern
      (auth ∷ tenant ∷ matching ∷ limit ∷ cached true ∷ [])

staged : All IsStaged (auth ∷ tenant ∷ matching ∷ [])
staged = (
  (inr refl, inl auth≢required),
  ((inl (λ e. auth≢required (sym e)), inr refl), ((inl (λ e. auth≢match (sym e)), inr refl), tt)),
)

guarded_three : checked (auth ∷ tenant ∷ matching ∷ []) ≡ none
unfolding validate_route_metadata_with route_rule
guarded_three = refl

holds_tenant : pattern_contains_tenant_id (trim_space pattern) ≡ true
unfolding pattern_contains_tenant_id
holds_tenant = refl

tenant_route_is_isolated_example :
    InOrder
      (policy_type_auth_required ∷ policy_type_tenant_required ∷ policy_type_tenant_match_from_path
        ∷ [])
      (auth ∷ tenant ∷ matching ∷ [])
    × All MatchesTenantId (auth ∷ tenant ∷ matching ∷ [])
tenant_route_is_isolated_example =
    tenant_route_is_isolated [] (str "get") pattern auth (tenant ∷ matching ∷ []) staged
      holds_tenant guarded_three
