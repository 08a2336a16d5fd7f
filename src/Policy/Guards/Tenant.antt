-- ===== src/Policy/Guards/Tenant.antt =====
-- internal/tenancy/policies.go, tenant.go, authhook.go and context.go: the policies that isolate
-- tenants, and what tenancy adds to AuthRequired.
use superapi.Prelude.{
  Str, str, Bool, true, false, not, ◌&&◌, Option, none, some, [], ◌++◌, ◌==◌, Dict, trim_space,
  if◌then◌else◌,
}
use superapi.Policy.Guards.{
  Attribute, AuthContext, attribute_of, AuthResult, Request, Response, error, Policy, unauthorized,
  AuthExtension,
}

abbrev pub attr_tenant_id : Str
attr_tenant_id = str "tenant_id"

unfoldable pub principal_tenant : AuthContext → Str
unfolding attribute_of trim_space
principal_tenant principal = trim_space (attribute_of attr_tenant_id principal.attributes)

abbrev pub unless_blank : Str → Option Str
unless_blank s = if s == [] then none else some s

abbrev pub tenant_of_principal : Option AuthContext → Option Str
tenant_of_principal none = none
tenant_of_principal (some principal) = unless_blank (principal_tenant principal)

unfoldable pub tenant_id_from_context : Request → Option Str
unfolding principal_tenant ◌==◌
tenant_id_from_context r = tenant_of_principal r.principal

abbrev pub tenant_scope_required : Str
tenant_scope_required = str "tenant scope required"

abbrev pub error_unless : Option Str → Option Str
error_unless none = some tenant_scope_required
error_unless (some tenant) = none

-- The error's message; its code is 403.
unfoldable pub require_tenant : Request → Option Str
unfolding tenant_id_from_context
require_tenant r = error_unless (tenant_id_from_context r)

unfoldable pub is_same_tenant : Str → Str → Bool
unfolding trim_space ◌==◌
is_same_tenant principal_tenant_id resource_tenant_id =
    not (trim_space principal_tenant_id == [])
    && trim_space principal_tenant_id == trim_space resource_tenant_id

-- RequestTenantFromContext: an empty tenant is none.
abbrev pub request_tenant_from_context : Request → Option Str
request_tenant_from_context r = elim r.request_tenant [ none ↦ none | some t ↦ unless_blank t ]

abbrev pub tenant_differs : Str → Option Str → Bool
tenant_differs tenant none = false
tenant_differs tenant (some request_tenant) = not (is_same_tenant tenant request_tenant)

abbrev pub not_found : Dict Str → Response
not_found headers = error headers 404 (str "not found")

abbrev pub tenant_forbidden : Dict Str → Response
tenant_forbidden headers = error headers 403 tenant_scope_required

abbrev pub is_error : Option Str → Bool
is_error none = false
is_error (some e) = true

abbrev pub tenant_required_of : Option AuthContext → Policy
tenant_required_of none next r headers = unauthorized headers
tenant_required_of (some principal) next r headers =
    if is_error (require_tenant r)
    then tenant_forbidden headers
    else if tenant_differs (principal_tenant principal) (request_tenant_from_context r)
    then not_found headers
    else next r headers

unfoldable pub tenant_required : Policy
unfolding require_tenant is_same_tenant principal_tenant
tenant_required next r headers = tenant_required_of r.principal next r headers

abbrev pub match_from_path : Str → Option AuthContext → Policy
match_from_path name none next r headers = unauthorized headers
match_from_path name (some principal) next r headers =
    let resource_tenant = trim_space (r.url_param name) in
    if resource_tenant == []
    then error headers 400 (name ++ str " is required")
    else if principal_tenant principal == []
    then tenant_forbidden headers
    else if not (is_same_tenant (principal_tenant principal) resource_tenant)
    then not_found headers
    else next r headers

-- `none` where the constructor panics, since the name of the parameter is blank.
unfoldable pub tenant_match_from_path : Str → Option Policy
unfolding is_same_tenant principal_tenant trim_space ◌==◌
tenant_match_from_path param_name =
    let name = trim_space param_name in
    if name == []
    then none
    else some (λ next r headers. match_from_path name r.principal next r headers)

-- AttrTenantID and result.TenantID
abbrev pub tenant_attribute : AuthResult → Attribute
tenant_attribute result = record { key = attr_tenant_id; value = result.tenant }

abbrev pub token_tenant_mismatch : Str
token_tenant_mismatch = str "token tenant does not match the request tenant"

unfoldable pub check_token_tenant : Request → AuthResult → Option Str
unfolding is_same_tenant
check_token_tenant r result =
    if tenant_differs result.tenant (request_tenant_from_context r)
    then some token_tenant_mismatch
    else none

unfoldable pub auth_extension : Bool → AuthExtension
unfolding check_token_tenant
auth_extension enabled = record {
  attribute = some tenant_attribute;
  check = if enabled then some check_token_tenant else none;
}
