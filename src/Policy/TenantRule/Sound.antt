-- ===== src/Policy/TenantRule/Sound.antt =====
-- What a tenant route that the validator accepts has: authentication, then the tenant policies.
use superapi.Prelude.{
  Str, ◌≡◌, refl, ap, sym, ◌∙◌, Bool, true, false, not, ◌&&◌, Option, none, some, List, [], ◌∷◌,
  ◌⊎◌, inl, inr, arith, All, trim_space, to_upper, if◌then◌else◌, subst,
}
use superapi.Policy.Metadata.{Metadata, policy_type_auth_required}
use superapi.Policy.Validator.{
  RouteRule, policy_order_stage, stage_of_type, validate_route_metadata_with,
}
use superapi.Policy.Validator.Sound.{HasType, IsOrdered, NotAfter}
use superapi.Policy.Validator.Accepts.{validate_route_metadata_with_iff}
use superapi.Policy.TenantRule.{
  policy_type_tenant_required, policy_type_tenant_match_from_path, Scan, scan, new_scan,
  pattern_contains_tenant_id, all_match_tenant_id, strict_checks, is_before, is_set, is_empty,
  check_scan, route_rule, auth_is_required, tenant_is_required, match_comes_first,
}
use superapi.Policy.TenantRule.Loop.{
  auth≢required, InOrder, MatchesTenantId, IsStaged, IsPassed, tenant-InOrder, scan-MatchesTenantId,
  strict_fields, scan-has_auth,
}

-- The checks after the loop, on a path that must be guarded.
guards_passed :
    (found auth empty first strict : Bool) (x y z : Str) (last : Option Str)
    → (if found && not auth
        then some x
        else if not empty && not found
        then some y
        else if first
        then some z
        else if strict
        then last
        else none)
      ≡ none
    → strict ≡ true
    → ((found ≡ false) ⊎ (auth ≡ true)) × (first ≡ false) × (last ≡ none)
guards_passed true true empty first strict x y z last h k = (inr refl, ground arith, ground arith)
guards_passed true false empty first strict x y z last h k = cc
guards_passed false auth empty first strict x y z last h k = (inl refl, ground arith, ground arith)

-- The rule accepted a path that holds the tenant's parameter, with tenancy on.
record IsGuarded (ms : List Metadata) : Type 0 where
  auth : HasType policy_type_auth_required ms
  tenant_order : InOrder (policy_type_tenant_required ∷ policy_type_tenant_match_from_path ∷ []) ms
  params : All MatchesTenantId ms

IsGuarded-scan :
    (pattern : Str) (ms : List Metadata) (s : Scan)
    → scan 0 ms new_scan ≡ s
    → (is_set s.required_at ≡ false) ⊎ (s.has_auth ≡ true)
    → is_before s.match_at s.required_at ≡ false
    → strict_checks pattern s.required_at s.matches ≡ none
    → IsGuarded ms
IsGuarded-scan pattern ms s same auth first checks =
    let (found, nonempty, params) = strict_fields pattern s.required_at s.matches checks in
    let scanned : IsPassed s = record { found = found; ordered = first; some_match = nonempty } in
    record {
      auth = elim auth [
        | inl missing ↦ cc (found, missing)
        | inr authed ↦ elim (scan-has_auth 0 ms new_scan (ap (λ t. t.has_auth) same ∙ authed)) [
          | inl absent ↦ cc
          | inr has ↦ has
        ]
      ];
      tenant_order =
          tenant-InOrder 0 ms new_scan refl refl refl (subst IsPassed (sym same) scanned);
      params =
          (scan-MatchesTenantId pattern 0 ms new_scan
            (ap (λ t. all_match_tenant_id pattern t.matches) same ∙ params)).1;
    }

route_rule-IsGuarded :
    (method pattern : Str) (ms : List Metadata)
    → pattern_contains_tenant_id pattern ≡ true
    → route_rule true method pattern ms ≡ none
    → IsGuarded ms
unfolding route_rule check_scan
route_rule-IsGuarded method pattern ms holds h =
    let s = scan 0 ms new_scan in
    let (auth, first, checks) =
      guards_passed (is_set s.required_at) s.has_auth (is_empty s.matches)
        (is_before s.match_at s.required_at) (pattern_contains_tenant_id pattern) auth_is_required
        tenant_is_required match_comes_first (strict_checks pattern s.required_at s.matches) h
        holds in
    IsGuarded-scan pattern ms s refl auth first checks

stage_of_auth : stage_of_type policy_type_auth_required ≡ 1
unfolding stage_of_type
stage_of_auth = refl

-- AuthRequired does not come after TenantRequired.
auth-NotAfter :
    (m n : Metadata)
    → m.policy_type ≡ policy_type_tenant_required
    → n.policy_type ≡ policy_type_auth_required
    → IsStaged m
    → IsStaged n
    → NotAfter m n
    → ⊥
unfolding policy_order_stage
auth-NotAfter m n tm tn (am, inl x) sn h = x tm
auth-NotAfter m n tm tn (am, inr sm) (inl x, rn) h = x tn
auth-NotAfter m n tm tn (am, inr sm) (inr sn, rn) h =
    let m_stage : policy_order_stage m ≡ 2 = ground arith in
    let n_stage : policy_order_stage n ≡ 1 = ground (arith, ap stage_of_type tn ∙ stage_of_auth) in
    elim h [ inl x ↦ omega arith | inr y ↦ elim y [ inl x ↦ omega arith | inr x ↦ omega arith ] ]

auth_not_later :
    (m : Metadata) (ms : List Metadata)
    → m.policy_type ≡ policy_type_tenant_required
    → IsStaged m
    → All IsStaged ms
    → All (NotAfter m) ms
    → HasType policy_type_auth_required ms
    → ⊥
auth_not_later m [] tm sm ss os h = h
auth_not_later m (n ∷ ms) tm sm (sn, ss) (on, os) (inl e) = auth-NotAfter m n tm e sm sn on
auth_not_later m (n ∷ ms) tm sm (sn, ss) (on, os) (inr h) = auth_not_later m ms tm sm ss os h

auth_first :
    (ms : List Metadata)
    → All IsStaged ms
    → IsOrdered ms
    → HasType policy_type_auth_required ms
    → InOrder (policy_type_tenant_required ∷ policy_type_tenant_match_from_path ∷ []) ms
    → InOrder
        (policy_type_auth_required ∷ policy_type_tenant_required
          ∷ policy_type_tenant_match_from_path ∷ [])
        ms
auth_first [] ss os h o = absurd h
auth_first (m ∷ ms) (sm, ss) (om, os) (inl e) (inl (r, o)) = absurd (auth≢required (sym e ∙ r))
auth_first (m ∷ ms) (sm, ss) (om, os) (inl e) (inr o) = inl (e, o)
auth_first (m ∷ ms) (sm, ss) (om, os) (inr h) (inl (r, o)) =
    absurd (auth_not_later m ms r sm ss om h)
auth_first (m ∷ ms) (sm, ss) (om, os) (inr h) (inr o) = inr (auth_first ms ss os h o)

-- A route with policies whose trimmed pattern holds the tenant's parameter, accepted with the strict
-- tenant rule: AuthRequired comes before TenantRequired and that before TenantMatchFromPath, and
-- every TenantMatchFromPath is for the parameter tenant_id. The policies of the first two types have
-- the stages that their constructors give them.
pub tenant_route_is_isolated :
    (rules : List (Option RouteRule)) (method pattern : Str) (m : Metadata) (ms : List Metadata)
    → All IsStaged (m ∷ ms)
    → pattern_contains_tenant_id (trim_space pattern) ≡ true
    → validate_route_metadata_with (some (route_rule true) ∷ rules) method pattern (m ∷ ms) ≡ none
    → InOrder
        (policy_type_auth_required ∷ policy_type_tenant_required
          ∷ policy_type_tenant_match_from_path ∷ [])
        (m ∷ ms)
      × All MatchesTenantId (m ∷ ms)
tenant_route_is_isolated rules method pattern m ms staged holds h =
    let acceptable =
      (validate_route_metadata_with_iff (some (route_rule true) ∷ rules) method pattern (m ∷ ms)).0
        h in
    elim acceptable.safe [
      | inl absent ↦ cc
      | inr safe ↦
          let guarded =
            route_rule-IsGuarded (to_upper (trim_space method)) (trim_space pattern) (m ∷ ms) holds
              safe.accepted.0 in
          (
            auth_first (m ∷ ms) staged safe.ordered guarded.auth guarded.tenant_order,
            guarded.params,
          )
    ]
