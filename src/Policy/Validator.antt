-- ===== src/Policy/Validator.antt =====
-- internal/core/policy/validator.go and validator_rules.go: which policies a route may have. An
-- error is its message; `none` is nil.
pub mod Sound
pub mod Accepts
use superapi.Prelude.{
  ℕ, Str, String, str, Bool, true, false, not, ◌&&◌, ◌||◌, Option, none, some, List, [], ◌∷◌, ◌++◌,
  ◌==◌, ltb, trim_space, to_upper, any, keep, if◌then◌else◌,
}
use superapi.Policy.Metadata.{
  Metadata, policy_type_unknown, policy_type_auth_required, policy_type_require_perm,
  policy_type_require_any_perm, policy_type_rate_limit, policy_type_cache_read,
  policy_type_cache_invalidate, policy_type_cache_control, Registry, describe_policies, Described,
  DescribeError, nil_policy, not_annotated, metas, failed,
}

abbrev pub stage_auth : ℕ
stage_auth = 1

abbrev pub stage_isolation : ℕ
stage_isolation = 2

abbrev pub stage_rbac : ℕ
stage_rbac = 3

abbrev pub stage_rate_limit : ℕ
stage_rate_limit = 4

abbrev pub stage_cache : ℕ
stage_cache = 5

abbrev pub stage_cache_control : ℕ
stage_cache_control = 6

-- The switch of policyOrderStage.
unfoldable pub stage_of_type : Str → ℕ
unfolding ◌==◌
stage_of_type t =
    if t == policy_type_auth_required
    then stage_auth
    else if t == policy_type_require_perm || t == policy_type_require_any_perm
    then stage_rbac
    else if t == policy_type_rate_limit
    then stage_rate_limit
    else if t == policy_type_cache_read || t == policy_type_cache_invalidate
    then stage_cache
    else if t == policy_type_cache_control
    then stage_cache_control
    else 0

unfoldable pub policy_order_stage : Metadata → ℕ
unfolding stage_of_type
policy_order_stage meta = if ltb 0 meta.stage then meta.stage else stage_of_type meta.policy_type

abbrev pub out_of_order : Str → Str → Str
out_of_order name previous_type =
    str "policy " ++ name ++ str " cannot appear after " ++ previous_type

-- The loop of validatePolicyOrdering, from the stage and type seen last.
unfoldable pub order_from : ℕ → Str → List Metadata → Option Str
unfolding policy_order_stage
order_from previous_stage previous_type [] = none
order_from previous_stage previous_type (meta ∷ metas') =
    let stage = policy_order_stage meta in
    let rest_same = order_from previous_stage previous_type metas' in
    let rest_next = order_from stage meta.policy_type metas' in
    if ltb 0 stage
    then if ltb stage previous_stage then some (out_of_order meta.name previous_type) else rest_next
    else rest_same

unfoldable pub validate_policy_ordering : List Metadata → Option Str
unfolding order_from
validate_policy_ordering ms = order_from 0 policy_type_unknown ms

abbrev pub is_of_type : Str → Metadata → Bool
is_of_type policy_type meta = meta.policy_type == policy_type

unfoldable pub has_policy_type : List Metadata → Str → Bool
unfolding ◌==◌
has_policy_type ms policy_type = any (is_of_type policy_type) ms

unfoldable pub find_policies : List Metadata → Str → List Metadata
unfolding ◌==◌
find_policies ms policy_type = keep (is_of_type policy_type) ms

abbrev pub auth_is_required : Str
auth_is_required = policy_type_auth_required ++ str " is required when RBAC policies are configured"

unfoldable pub validate_auth_dependencies : List Metadata → Option Str
unfolding has_policy_type
validate_auth_dependencies ms =
    if has_policy_type ms policy_type_auth_required
    then none
    else if has_policy_type ms policy_type_require_perm
        || has_policy_type ms policy_type_require_any_perm
    then some auth_is_required
    else none

abbrev pub vary_is_required : Str
vary_is_required =
    policy_type_cache_read
    ++ str
        " on authenticated routes requires VaryBy.UserID or an identity-bearing VaryBy.Parts entry"

-- The loop of validateCacheSafety.
unfoldable pub all_vary : List Metadata → Option Str
all_vary [] = none
all_vary (meta ∷ ms) =
    let rest = all_vary ms in
    if not meta.cache_read.vary_by_user_id && not meta.cache_read.vary_by_identity_part
    then some vary_is_required
    else rest

unfoldable pub validate_cache_safety : List Metadata → Option Str
unfolding has_policy_type find_policies all_vary
validate_cache_safety ms =
    if not (has_policy_type ms policy_type_auth_required)
    then none
    else all_vary (find_policies ms policy_type_cache_read)

abbrev pub RouteRule : Type 0
RouteRule = Str → Str → List Metadata → Option Str

-- An error comes before what would be run after it.
abbrev pub or_else : Option Str → Option Str → Option Str
or_else (some e) next = some e
or_else none next = next

-- The loop of validateRouteRules over the rules of features; a nil rule is passed over.
unfoldable pub apply_rules : Str → Str → List Metadata → List (Option RouteRule) → Option Str
apply_rules method pattern ms [] = none
apply_rules method pattern ms (none ∷ rules) = apply_rules method pattern ms rules
apply_rules method pattern ms (some rule ∷ rules) =
    or_else (rule method pattern ms) (apply_rules method pattern ms rules)

unfoldable pub validate_route_rules :
    Str → Str → List Metadata → List (Option RouteRule) → Option Str
unfolding validate_policy_ordering validate_auth_dependencies validate_cache_safety apply_rules
validate_route_rules method pattern ms rules = or_else (validate_policy_ordering ms) (
    or_else (validate_auth_dependencies ms)
      (or_else (validate_cache_safety ms) (apply_rules method pattern ms rules)))

abbrev pub method_is_required : Str
method_is_required = str "http method is required"

abbrev pub pattern_is_required : Str
pattern_is_required = str "route pattern is required"

abbrev pub rules_unless_empty : Str → Str → List Metadata → List (Option RouteRule) → Option Str
rules_unless_empty method pattern [] rules = none
rules_unless_empty method pattern (m ∷ ms) rules =
    validate_route_rules method pattern (m ∷ ms) rules

unfoldable pub validate_route_metadata_with :
    List (Option RouteRule) → Str → Str → List Metadata → Option Str
unfolding validate_route_rules to_upper trim_space ◌==◌
validate_route_metadata_with rules method pattern ms =
    let trimmed_method = to_upper (trim_space method) in
    let trimmed_pattern = trim_space pattern in
    if trimmed_method == []
    then some method_is_required
    else if trimmed_pattern == []
    then some pattern_is_required
    else rules_unless_empty trimmed_method trimmed_pattern ms rules

-- The index of a message, in decimal, is a parameter: strconv is not modelled.
abbrev pub described_or :
    (DescribeError → Str) → Described → (List Metadata → Option Str) → Option Str
described_or message (failed e) check = some (message e)
described_or message (metas ms) check = check ms

unfoldable pub validate_route_with :
    (DescribeError → Str)
    → Registry
    → List (Option RouteRule)
    → Str
    → Str
    → List (Option ℕ)
    → Option Str
unfolding validate_route_metadata_with describe_policies
validate_route_with message registry rules method pattern policies =
    let trimmed_method = trim_space method in
    let trimmed_pattern = trim_space pattern in
    if trimmed_method == []
    then some method_is_required
    else if trimmed_pattern == []
    then some pattern_is_required
    else described_or message (describe_policies policies registry)
        (validate_route_metadata_with rules (to_upper trimmed_method) trimmed_pattern)
