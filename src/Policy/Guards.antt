-- ===== src/Policy/Guards.antt =====
-- internal/core/policy/policy.go, auth.go and authext.go, internal/core/auth/context.go: policies
-- as functions from a handler to a handler. A handler takes the request, with what its context
-- carries, and the response headers that are set so far. goAuth is a parameter: what its guard makes
-- of a request, and which permissions a mask has. The guard calls the handler behind it, or answers
-- 401 or another error; it does not write anything after the handler has run.
pub mod Tenant
pub mod Outcomes
pub mod Isolation
pub mod Rbac
mod Tests
use superapi.Prelude.{
  ℕ, Str, String, str, Bool, true, false, not, ◌&&◌, Option, none, some, List, [], ◌∷◌, ◌++◌, ◌==◌,
  Dict, insert, trim_space, if◌then◌else◌,
}

pub record Attribute : Type 0 where
  pub key : Str
  pub value : Str

pub record AuthContext : Type 0 where
  pub user_id : Str
  pub role : Str
  pub permissions : List Str
  pub attributes : List Attribute

-- AuthContext.Attribute
unfoldable pub attribute_of : Str → List Attribute → Str
unfolding ◌==◌
attribute_of key [] = []
attribute_of key (a ∷ as') =
    let rest = attribute_of key as' in if a.key == key then a.value else rest

-- goauth.AuthResult, as far as it is read.
pub record AuthResult : Type 0 where
  pub user : Str
  pub tenant : Str
  pub user_role : Str
  pub granted : List Str
  pub mask : ℕ

pub record Request : Type 0 where
  pub method : Str
  pub url_param : Str → Str
  pub principal : Option AuthContext
  pub auth_result : Option AuthResult
  -- whether AuthRequired has attached its engine
  pub has_engine : Bool
  pub request_tenant : Option Str

-- What the client gets: an error that a policy writes, or what the route's handler makes of the
-- request that reaches it.
pub data Response : Type 0 where
  error : Dict Str → ℕ → Str → Response
  handled : Dict Str → Request → Response

abbrev pub Handler : Type 0
Handler = Request → Dict Str → Response

abbrev pub Policy : Type 0
Policy = Handler → Handler

-- Chain: the first policy is the outermost, and a nil policy is passed over.
unfoldable pub chain : Handler → List (Option Policy) → Handler
chain h [] = h
chain h (none ∷ ps) = chain h ps
chain h (some p ∷ ps) = p (chain h ps)

unfoldable pub noop : Policy
noop next r headers = next r headers

unfoldable pub with_header : Str → Str → Policy
unfolding insert
with_header key value next r headers = next r (insert key value headers)

-- response.Error with CodeUnauthorized, CodeForbidden
abbrev pub unauthorized : Dict Str → Response
unauthorized headers = error headers 401 (str "authentication required")

abbrev pub forbidden : Dict Str → Response
forbidden headers = error headers 403 (str "forbidden")

-- AuthExtension; the key that Attribute gives is empty where it adds none.
pub record AuthExtension : Type 0 where
  pub attribute : Option (AuthResult → Attribute)
  pub check : Option (Request → AuthResult → Option Str)

abbrev pub add_attribute : Attribute → List Attribute → List Attribute
add_attribute a as' = if a.key == [] then as' else a ∷ as'

-- The attributes that the extensions add, in their order.
unfoldable pub attributes_from : List AuthExtension → AuthResult → List Attribute
unfolding ◌==◌
attributes_from [] result = []
attributes_from (ext ∷ exts) result =
    let rest = attributes_from exts result in
    elim ext.attribute [ none ↦ rest | some attribute ↦ add_attribute (attribute result) rest ]

abbrev pub is_nil : Option Str → Bool
is_nil none = true
is_nil (some e) = false

-- The checks of the extensions, all of which must pass.
unfoldable pub checks_pass : List AuthExtension → Request → AuthResult → Bool
checks_pass [] r result = true
checks_pass (ext ∷ exts) r result = elim ext.check [
  | none ↦ checks_pass exts r result
  | some check ↦ is_nil (check r result) && checks_pass exts r result
]

-- What goauthmiddleware.Guard does with a request.
pub data Guarded : Type 0 where
  passed : Option AuthResult → Guarded
  guard_unauthorized : Guarded
  guard_refused : ℕ → Str → Guarded

abbrev pub principal_of : List AuthExtension → AuthResult → AuthContext
principal_of exts result = record {
  user_id = result.user;
  role = result.user_role;
  permissions = result.granted;
  attributes = attributes_from exts result;
}

-- The request behind AuthRequired.
abbrev pub authenticated : List AuthExtension → AuthResult → Request → Request
authenticated exts result r = record {
  method = r.method;
  url_param = r.url_param;
  principal = some (principal_of exts result);
  auth_result = some result;
  has_engine = true;
  request_tenant = r.request_tenant;
}

-- The handler that the guard calls.
abbrev pub behind_guard : List AuthExtension → Option AuthResult → Policy
behind_guard exts none next r headers = unauthorized headers
behind_guard exts (some result) next r headers =
    if trim_space result.user == []
    then unauthorized headers
    else if checks_pass exts r result
    then next (authenticated exts result r) headers
    else unauthorized headers

abbrev pub answer_guarded : List AuthExtension → Guarded → Policy
answer_guarded exts (passed result) next r headers = behind_guard exts result next r headers
answer_guarded exts guard_unauthorized next r headers = unauthorized headers
answer_guarded exts (guard_refused status message) next r headers = error headers status message

-- A 401 of the guard is held back by the writer and written anew.
unfoldable pub auth_required : (Request → Guarded) → List AuthExtension → Policy
unfolding attributes_from checks_pass trim_space ◌==◌
auth_required guard exts next r headers = answer_guarded exts (guard r) next r headers

unfoldable pub trimmed_perms : List Str → List Str
unfolding trim_space ◌==◌
trimmed_perms [] = []
trimmed_perms (p ∷ ps) =
    let rest = trimmed_perms ps in
    let trimmed = trim_space p in if trimmed == [] then rest else trimmed ∷ rest

abbrev pub with_result : Policy → Option AuthResult → Bool → (AuthResult → Policy) → Policy
with_result otherwise none engine then_do next r headers = otherwise next r headers
with_result otherwise (some result) false then_do next r headers = otherwise next r headers
with_result otherwise (some result) true then_do next r headers = then_do result next r headers

abbrev pub refuse_unauthorized : Policy
refuse_unauthorized next r headers = unauthorized headers

module _ (has_permission : ℕ → Str → Bool) where
  unfoldable pub require_all : List Str → AuthResult → Policy
  require_all [] result next r headers = next r headers
  require_all (p ∷ ps) result next r headers =
      if not (has_permission result.mask p)
      then forbidden headers
      else require_all ps result next r headers

  unfoldable pub require_any : List Str → AuthResult → Policy
  require_any [] result next r headers = forbidden headers
  require_any (p ∷ ps) result next r headers =
      if has_permission result.mask p then next r headers else require_any ps result next r headers

  abbrev pub unless_empty : List Str → Policy → Option Policy
  unless_empty [] p = none
  unless_empty (x ∷ xs) p = some p

  -- `none` where the constructor panics, since no permission is given.
  unfoldable pub require_perm : List Str → Option Policy
  unfolding require_all trimmed_perms
  require_perm perms =
      let required = trimmed_perms perms in
      unless_empty required (λ next r headers.
        with_result refuse_unauthorized r.auth_result r.has_engine (require_all required) next r
          headers)

  unfoldable pub require_any_perm : List Str → Option Policy
  unfolding require_any trimmed_perms
  require_any_perm perms =
      let required = trimmed_perms perms in
      unless_empty required (λ next r headers.
        with_result refuse_unauthorized r.auth_result r.has_engine (require_any required) next r
          headers)
