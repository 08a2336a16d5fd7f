-- ===== src/Policy/Guards/Outcomes.antt =====
-- What each policy does with a request, taken alone.
use superapi.Prelude.{
  ℕ, Str, str, ◌≡◌, refl, ap, sym, ◌∙◌, Bool, true, false, none, some, List, [], ◌∷◌, ◌++◌, ◌==◌,
  ◌⊎◌, inl, inr, Dict, trim_space, Bool-cases, subst,
}
use superapi.Policy.Guards.{
  AuthContext, attribute_of, AuthResult, Request, Response, error, Handler, unauthorized,
  AuthExtension, attributes_from, checks_pass, Guarded, passed, guard_unauthorized, guard_refused,
  principal_of, authenticated, behind_guard, answer_guarded, auth_required,
}
use superapi.Policy.Guards.Tenant.{
  principal_tenant, require_tenant, is_same_tenant, request_tenant_from_context, tenant_differs,
  tenant_required_of, tenant_required, match_from_path, auth_extension, tenant_id_from_context,
  unless_blank, is_error, error_unless, tenant_scope_required, tenant_of_principal,
}

-- The policies answered themselves, with an error.
abbrev pub IsRefused : Response → Dict Str → Type 0
IsRefused response headers =
    (status : ℕ) × (message : Str) × (response ≡ error headers status message)

-- AuthRequired let the request through: the guard accepted a token of a user whom the checks of the
-- extensions all accept.
pub record IsAuthenticated (guard : Request → Guarded) (exts : List AuthExtension) (r : Request)
    (result : AuthResult) : Type 0 where
  pub accepted : guard r ≡ passed (some result)
  pub has_user : (trim_space result.user == []) ≡ false
  pub checked : checks_pass exts r result ≡ true

module _ (guard : Request → Guarded) (exts : List AuthExtension) (next : Handler) (r : Request)
    (headers : Dict Str) where
  abbrev pub AuthOutcome : Response → Type 0
  AuthOutcome response =
      (response ≡ unauthorized headers)
      ⊎ (((status : ℕ) × (message : Str) × (guard r ≡ guard_refused status message)
            × (response ≡ error headers status message))
          ⊎ ((result : AuthResult) × IsAuthenticated guard exts r result
              × (response ≡ next (authenticated exts result r) headers)))

  pub by_result :
      (result : AuthResult)
      → guard r ≡ passed (some result)
      → AuthOutcome (behind_guard exts (some result) next r headers)
  by_result result g = elim (Bool-cases (trim_space result.user == [])) [
    | inl blank ↦ rw blank (inl refl)
    | inr has_user ↦ elim (Bool-cases (checks_pass exts r result)) [
      | inr fails ↦ rw has_user (rw fails (inl refl))
      | inl passes ↦ rw has_user (
          rw passes (
            inr
              (inr (result, record { accepted = g; has_user = has_user; checked = passes }, refl))))
    ]
  ]

  pub by_guard : (g : Guarded) → guard r ≡ g → AuthOutcome (answer_guarded exts g next r headers)
  by_guard (passed none) e = inl refl
  by_guard (passed (some result)) e = by_result result e
  by_guard guard_unauthorized e = inl refl
  by_guard (guard_refused status message) e = inr (inl (status, message, e, refl))

  -- AuthRequired either answers 401, or with the guard's own refusal, or runs the next handler on
  -- the request that carries the principal of a token that the guard and every check accepted.
  pub auth_required_outcome : AuthOutcome (auth_required guard exts next r headers)
  unfolding auth_required
  auth_required_outcome = by_guard (guard r) refl

pub not_blank : (t : Str) → is_error (error_unless (unless_blank t)) ≡ false → (t == []) ≡ false
unfolding ◌==◌
not_blank [] h = cc
not_blank (c ∷ t) h = refl

pub require_tenant-not_blank :
    (r : Request) (principal : AuthContext)
    → r.principal ≡ some principal
    → is_error (require_tenant r) ≡ false
    → (principal_tenant principal == []) ≡ false
unfolding require_tenant tenant_id_from_context
require_tenant-not_blank r principal has h =
    not_blank (principal_tenant principal)
      (ap (λ o. is_error (error_unless (tenant_of_principal o))) (sym has) ∙ h)

-- Refused, or the principal has a tenant that the request's does not differ from and the next
-- handler runs.
abbrev pub TenantOutcome : Handler → Request → Dict Str → AuthContext → Response → Type 0
TenantOutcome next r headers principal response =
    IsRefused response headers
    ⊎ (((principal_tenant principal == []) ≡ false)
        × (tenant_differs (principal_tenant principal) (request_tenant_from_context r) ≡ false)
        × (response ≡ next r headers))

pub required_outcome :
    (next : Handler) (r : Request) (headers : Dict Str) (principal : AuthContext)
    → r.principal ≡ some principal
    → TenantOutcome next r headers principal (tenant_required_of (some principal) next r headers)
required_outcome next r headers principal has = elim (Bool-cases (is_error (require_tenant r))) [
  | inl e ↦ rw e (inl (403, tenant_scope_required, refl))
  | inr e ↦
      elim (Bool-cases
        (tenant_differs (principal_tenant principal) (request_tenant_from_context r))) [
          | inl d ↦ rw e (rw d (inl (404, str "not found", refl)))
          | inr d ↦ rw e (rw d (inr (require_tenant-not_blank r principal has e, refl, refl)))
        ]
]

pub tenant_required_outcome :
    (next : Handler) (r : Request) (headers : Dict Str) (principal : AuthContext)
    → r.principal ≡ some principal
    → TenantOutcome next r headers principal (tenant_required next r headers)
unfolding tenant_required
tenant_required_outcome next r headers principal has =
    subst (λ o. TenantOutcome next r headers principal (tenant_required_of o next r headers))
      (sym has) (required_outcome next r headers principal has)

pub match_outcome :
    (name : Str) (next : Handler) (r : Request) (headers : Dict Str) (principal : AuthContext)
    → IsRefused (match_from_path name (some principal) next r headers) headers
      ⊎ ((is_same_tenant (principal_tenant principal) (trim_space (r.url_param name)) ≡ true)
          × (match_from_path name (some principal) next r headers ≡ next r headers))
match_outcome name next r headers principal =
    let resource_tenant = trim_space (r.url_param name) in
    elim (Bool-cases (resource_tenant == [])) [
      | inl e ↦ rw e (inl (400, name ++ str " is required", refl))
      | inr e ↦ elim (Bool-cases (principal_tenant principal == [])) [
        | inl b ↦ rw e (rw b (inl (403, tenant_scope_required, refl)))
        | inr b ↦ elim (Bool-cases (is_same_tenant (principal_tenant principal) resource_tenant)) [
          | inr d ↦ rw e (rw b (rw d (inl (404, str "not found", refl))))
          | inl d ↦ rw e (rw b (rw d (inr (refl, refl))))
        ]
      ]
    ]

-- With tenancy's extension first, the principal's tenant is the token's.
pub principal_tenant-principal_of :
    (enabled : Bool) (exts : List AuthExtension) (result : AuthResult)
    → principal_tenant (principal_of (auth_extension enabled ∷ exts) result)
      ≡ trim_space result.tenant
unfolding principal_tenant attributes_from auth_extension attribute_of
principal_tenant-principal_of enabled exts result = refl

pub auth_required_runs :
    (guard : Request → Guarded) (exts : List AuthExtension) (next : Handler) (r : Request)
    (headers : Dict Str) (result : AuthResult)
    → IsAuthenticated guard exts r result
    → auth_required guard exts next r headers ≡ next (authenticated exts result r) headers
unfolding auth_required
auth_required_runs guard exts next r headers result a =
    rw a.accepted (rw a.has_user (rw a.checked refl))

pub no_error : (t : Str) → (t == []) ≡ false → is_error (error_unless (unless_blank t)) ≡ false
no_error t h = rw h refl

pub tenant_required_of_runs :
    (next : Handler) (r : Request) (headers : Dict Str) (principal : AuthContext)
    → is_error (require_tenant r) ≡ false
    → tenant_differs (principal_tenant principal) (request_tenant_from_context r) ≡ false
    → tenant_required_of (some principal) next r headers ≡ next r headers
tenant_required_of_runs next r headers principal passes same = rw passes (rw same refl)

pub match_runs :
    (name : Str) (next : Handler) (r : Request) (headers : Dict Str) (principal : AuthContext)
    → (trim_space (r.url_param name) == []) ≡ false
    → (principal_tenant principal == []) ≡ false
    → is_same_tenant (principal_tenant principal) (trim_space (r.url_param name)) ≡ true
    → match_from_path name (some principal) next r headers ≡ next r headers
match_runs name next r headers principal given tenant same = rw given (rw tenant (rw same refl))

pub tenant_required_runs :
    (next : Handler) (r : Request) (headers : Dict Str) (principal : AuthContext)
    → r.principal ≡ some principal
    → (principal_tenant principal == []) ≡ false
    → tenant_differs (principal_tenant principal) (request_tenant_from_context r) ≡ false
    → tenant_required next r headers ≡ next r headers
unfolding tenant_required require_tenant tenant_id_from_context
tenant_required_runs next r headers principal has tenant same =
    let passes : is_error (require_tenant r) ≡ false =
      ap (λ o. is_error (error_unless (tenant_of_principal o))) has
      ∙ no_error (principal_tenant principal) tenant in
    ap (λ o. tenant_required_of o next r headers) has
    ∙ tenant_required_of_runs next r headers principal passes same
