-- ===== src/Policy/Guards/Isolation.antt =====
-- What the policies of a tenant route let through.
use superapi.Prelude.{
  Str, str, ◌≡◌, refl, ap, sym, ◌∙◌, Bool, true, false, Option, none, some, List, [], ◌∷◌, ◌==◌,
  ◌⊎◌, inl, inr, Dict, trim_space, subst,
}
use superapi.Policy.Guards.{
  AuthContext, AuthResult, Request, Response, Handler, Policy, chain, AuthExtension, Guarded,
  principal_of, authenticated, auth_required,
}
use superapi.Policy.Guards.Tenant.{
  principal_tenant, is_same_tenant, request_tenant_from_context, tenant_differs, tenant_required,
  match_from_path, tenant_match_from_path, auth_extension,
}
use superapi.Policy.Guards.Outcomes.{
  IsRefused, IsAuthenticated, auth_required_outcome, tenant_required_outcome, match_outcome,
  principal_tenant-principal_of, auth_required_runs, match_runs, tenant_required_runs,
}

-- What a request has that reaches the handler of a tenant route.
pub record IsIsolated (guard : Request → Guarded) (exts : List AuthExtension) (name : Str)
    (r : Request) (result : AuthResult) : Type 0 where
  pub authenticated_by : IsAuthenticated guard exts r result
  pub has_tenant : (trim_space result.tenant == []) ≡ false
  pub same_as_path :
      is_same_tenant (trim_space result.tenant) (trim_space (r.url_param (trim_space name))) ≡ true
  pub same_as_request :
      tenant_differs (trim_space result.tenant) (request_tenant_from_context r) ≡ false

abbrev pub tenant_policies : (Request → Guarded) → List AuthExtension → Str → List (Option Policy)
tenant_policies guard exts name =
    some (auth_required guard exts) ∷ some tenant_required ∷ tenant_match_from_path name ∷ []

abbrev as_policy : Option Policy → Policy
as_policy none next r headers = next r headers
as_policy (some p) next r headers = p next r headers

chain_three :
    (next : Handler) (p q : Policy) (o : Option Policy) (r : Request) (headers : Dict Str)
    → chain next (some p ∷ some q ∷ o ∷ []) r headers ≡ p (q (as_policy o next)) r headers
unfolding chain
chain_three next p q none r headers = refl
chain_three next p q (some m) r headers = refl

match_outcome_of :
    (name : Str) (next : Handler) (r : Request) (headers : Dict Str) (principal : AuthContext)
    → (trim_space name == []) ≡ false
    → r.principal ≡ some principal
    → IsRefused (as_policy (tenant_match_from_path name) next r headers) headers
      ⊎ ((is_same_tenant (principal_tenant principal) (trim_space (r.url_param (trim_space name)))
            ≡ true)
          × (as_policy (tenant_match_from_path name) next r headers ≡ next r headers))
unfolding tenant_match_from_path
match_outcome_of name next r headers principal named has = rw named (
    subst
      (λ o.
        IsRefused (match_from_path (trim_space name) o next r headers) headers
        ⊎ ((is_same_tenant (principal_tenant principal) (trim_space (r.url_param (trim_space name)))
              ≡ true)
            × (match_from_path (trim_space name) o next r headers ≡ next r headers)))
      (sym has) (match_outcome (trim_space name) next r headers principal))

module _ (guard : Request → Guarded) (enabled : Bool) (more : List AuthExtension) (name : Str)
    (next : Handler) (r : Request) (headers : Dict Str)
    (named : (trim_space name == []) ≡ false) where
  abbrev exts : List AuthExtension
  exts = auth_extension enabled ∷ more

  abbrev RouteCases : Response → Type 0
  RouteCases response =
      IsRefused response headers
      ⊎ ((result : AuthResult) × IsIsolated guard exts name r result
          × (response ≡ next (authenticated exts result r) headers))

  behind_auth :
      (result : AuthResult)
      → IsAuthenticated guard exts r result
      → RouteCases (
          tenant_required
            (as_policy (tenant_match_from_path name) next)
            (authenticated exts result r)
            headers)
  behind_auth result auth =
      let r' = authenticated exts result r in
      let p = principal_of exts result in
      let last = as_policy (tenant_match_from_path name) next in
      let token = principal_tenant-principal_of enabled more result in
      elim (tenant_required_outcome last r' headers p refl) [
        | inl refused ↦ inl refused
        | inr (has_tenant, same, runs) ↦ elim (match_outcome_of name next r' headers p named refl) [
          | inl (status, message, e) ↦ inl (status, message, runs ∙ e)
          | inr (path, runs') ↦ inr (
            result,
            record {
              authenticated_by = auth;
              has_tenant = rw token at has_tenant;
              same_as_path = rw token at path;
              same_as_request = rw token at same;
            },
            runs ∙ runs',
          )
        ]
      ]

  -- The chain of AuthRequired, with tenancy's extension first, TenantRequired and
  -- TenantMatchFromPath, for a parameter name that is not blank, answers with an error, or runs the
  -- handler behind it: then the guard accepted a token of a user, every check of the extensions
  -- passed, the token's tenant is not blank and is the tenant in the path, the request's tenant, if
  -- there is one, is the same, and the handler gets the principal made from that token.
  pub tenant_route_outcome : RouteCases (chain next (tenant_policies guard exts name) r headers)
  tenant_route_outcome =
      let last = as_policy (tenant_match_from_path name) next in
      let composed =
        chain_three next (auth_required guard exts) tenant_required (tenant_match_from_path name) r
          headers in
      elim (auth_required_outcome guard exts (tenant_required last) r headers) [
        | inl e ↦ inl (401, str "authentication required", composed ∙ e)
        | inr (inl (status, message, g, e)) ↦ inl (status, message, composed ∙ e)
        | inr (inr (result, auth, e)) ↦ elim (behind_auth result auth) [
          | inl (status, message, e') ↦ inl (status, message, composed ∙ e ∙ e')
          | inr (result', isolated, e') ↦ inr (result', isolated, composed ∙ e ∙ e')
        ]
      ]

  as_policy_runs :
      (r' : Request) (p : AuthContext)
      → r'.principal ≡ some p
      → (trim_space (r'.url_param (trim_space name)) == []) ≡ false
      → (principal_tenant p == []) ≡ false
      → is_same_tenant (principal_tenant p) (trim_space (r'.url_param (trim_space name))) ≡ true
      → as_policy (tenant_match_from_path name) next r' headers ≡ next r' headers
  unfolding tenant_match_from_path
  as_policy_runs r' p has given tenant same = rw named (
      ap (λ o. match_from_path (trim_space name) o next r' headers) has
      ∙ match_runs (trim_space name) next r' headers p given tenant same)

  -- The same chain runs the handler for every request whose parameter in the path is not blank and
  -- that carries a token of a user, which the guard and every check accept and whose tenant is that
  -- of the path and does not differ from the request's: no such request is refused.
  pub tenant_route_runs :
      (result : AuthResult)
      → (trim_space (r.url_param (trim_space name)) == []) ≡ false
      → IsIsolated guard exts name r result
      → chain next (tenant_policies guard exts name) r headers
        ≡ next (authenticated exts result r) headers
  tenant_route_runs result given i =
      let r' = authenticated exts result r in
      let p = principal_of exts result in
      let last = as_policy (tenant_match_from_path name) next in
      let token = principal_tenant-principal_of enabled more result in
      let tenant : (principal_tenant p == []) ≡ false = ap (λ t. t == []) token ∙ i.has_tenant in
      let path =
        ap (λ t. is_same_tenant t (trim_space (r.url_param (trim_space name)))) token
        ∙ i.same_as_path in
      let same =
        ap (λ t. tenant_differs t (request_tenant_from_context r)) token ∙ i.same_as_request in
      chain_three next (auth_required guard exts) tenant_required (tenant_match_from_path name) r
        headers
      ∙ auth_required_runs guard exts (tenant_required last) r headers result i.authenticated_by
      ∙ tenant_required_runs last r' headers p refl tenant same
      ∙ as_policy_runs r' p refl given tenant path
