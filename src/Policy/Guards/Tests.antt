-- ===== src/Policy/Guards/Tests.antt =====
-- Policies on small requests, and the theorems at them.
use superapi.Prelude.{
  ℕ, Str, String, str, ◌≡◌, ◌≢◌, refl, Bool, true, false, Option, none, some, List, [], ◌∷◌, ◌==◌,
  ◌⊎◌, trim_space, all, any, eqb, if◌then◌else◌, ◌&&◌,
}
use superapi.Policy.Guards.{
  AuthResult, Request, Response, error, handled, Handler, chain, forbidden, AuthExtension, Guarded,
  passed, authenticated, auth_required, trimmed_perms, require_perm, require_any_perm, noop,
  with_header, checks_pass,
}
use superapi.Policy.Guards.Tenant.{
  tenant_required, tenant_match_from_path, auth_extension, is_same_tenant,
}
use superapi.Policy.Guards.Isolation.{
  IsIsolated, tenant_policies, tenant_route_outcome, tenant_route_runs,
}
use superapi.Policy.Guards.Outcomes.{IsRefused, IsAuthenticated, AuthOutcome, auth_required_outcome}
use superapi.Policy.Guards.Rbac.{permissions_outcome}

-- A token of user u1 and tenant t1, with the permission of mask 1.
abbrev token : AuthResult
token = record {
  user = str "u1";
  tenant = str "t1";
  user_role = str "member";
  granted = [];
  mask = 1;
}

abbrev accepts_all : Request → Guarded
accepts_all r = passed (some token)

abbrev has_permission : ℕ → Str → Bool
has_permission mask p = eqb mask 1 && p == str "read"

abbrev asking_for : String → Option Str → Request
asking_for tenant request_tenant = record {
  method = str "GET";
  url_param = λ name. if name == str "tenant_id" then str tenant else [];
  principal = none;
  auth_result = none;
  has_engine = false;
  request_tenant = request_tenant;
}

abbrev served : Handler
served r headers = handled headers r

abbrev exts : List AuthExtension
exts = auth_extension true ∷ []

abbrev answer : Request → Response
answer r = chain served (tenant_policies accepts_all exts (str "tenant_id")) r []

own_tenant :
    answer (asking_for "t1" (some (str "t1")))
    ≡ handled [] (authenticated exts token (asking_for "t1" (some (str "t1"))))
unfolding chain auth_required tenant_required tenant_match_from_path auth_extension
own_tenant = refl

other_path : answer (asking_for "t2" none) ≡ error [] 404 (str "not found")
unfolding chain auth_required tenant_required tenant_match_from_path auth_extension
other_path = refl

other_request_tenant :
    answer (asking_for "t2" (some (str "t2"))) ≡ error [] 401 (str "authentication required")
unfolding chain auth_required tenant_required tenant_match_from_path auth_extension
other_request_tenant = refl

header_set :
    chain served
      (some noop ∷ none ∷ some (with_header (str "X-A") (str "1")) ∷ [])
      (asking_for "" none)
      []
    ≡ handled ((str "X-A", str "1") ∷ []) (asking_for "" none)
unfolding chain noop with_header
header_set = refl

token_accepted : IsAuthenticated accepts_all exts (asking_for "t1" none) token
unfolding checks_pass auth_extension trim_space ◌==◌
token_accepted = record { accepted = refl; has_user = refl; checked = refl }

token-IsIsolated : IsIsolated accepts_all exts (str "tenant_id") (asking_for "t1" none) token
unfolding is_same_tenant
token-IsIsolated = record {
  authenticated_by = token_accepted;
  has_tenant = refl;
  same_as_path = refl;
  same_as_request = refl;
}

auth_required_outcome_example :
    AuthOutcome accepts_all exts served
      (asking_for "t1" none)
      []
      (auth_required accepts_all exts served (asking_for "t1" none) [])
auth_required_outcome_example =
    auth_required_outcome accepts_all exts served (asking_for "t1" none) []

tenant_route_outcome_example :
    IsRefused (answer (asking_for "t1" none)) []
    ⊎ ((result : AuthResult) × IsIsolated accepts_all exts
          (str "tenant_id")
          (asking_for "t1" none)
          result
        × (answer (asking_for "t1" none)
            ≡ served (authenticated exts result (asking_for "t1" none)) []))
tenant_route_outcome_example =
    tenant_route_outcome accepts_all true [] (str "tenant_id") served (asking_for "t1" none) []
      (unfold trim_space ◌==◌ in refl)

tenant_route_runs_example :
    answer (asking_for "t1" none) ≡ served (authenticated exts token (asking_for "t1" none)) []
tenant_route_runs_example =
    tenant_route_runs accepts_all true [] (str "tenant_id") served (asking_for "t1" none) []
      (unfold trim_space ◌==◌ in refl) token (unfold trim_space ◌==◌ in refl) token-IsIsolated

some_perm : trimmed_perms (str " read " ∷ str "" ∷ []) ≢ []
unfolding trimmed_perms
some_perm e = cc

permissions_outcome_example :
    (chain served
        (some (auth_required accepts_all exts)
          ∷ require_perm has_permission (str " read " ∷ str "" ∷ [])
          ∷ [])
        (asking_for "t1" none)
        []
      ≡ (if all (has_permission token.mask) (trimmed_perms (str " read " ∷ str "" ∷ []))
          then served (authenticated exts token (asking_for "t1" none)) []
          else forbidden []))
    × (chain served
          (some (auth_required accepts_all exts)
            ∷ require_any_perm has_permission (str " read " ∷ str "" ∷ [])
            ∷ [])
          (asking_for "t1" none)
          []
        ≡ (if any (has_permission token.mask) (trimmed_perms (str " read " ∷ str "" ∷ []))
            then served (authenticated exts token (asking_for "t1" none)) []
            else forbidden []))
permissions_outcome_example =
    permissions_outcome has_permission accepts_all exts (str " read " ∷ str "" ∷ []) served
      (asking_for "t1" none) [] token some_perm token_accepted
