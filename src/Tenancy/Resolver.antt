-- ===== src/Tenancy/Resolver.antt =====
-- internal/tenancy/resolver.go and directory.go: which tenant a request is for. The directory is
-- the tenants table: what it answers to a lookup is an argument of each request. A request is its
-- path, its host and the values of its headers, as net/http gives them.
pub mod Lookup
pub mod Fresh
pub mod Handler
pub mod Isolation
mod Tests
use superapi.Prelude.{
  ℕ, zero, suc, Str, String, str, Bool, true, false, ◌&&◌, ◌||◌, Option, none, some, List, [], ◌∷◌,
  ◌++◌, ◌==◌, length, ltb, leb, eqb, if◌then◌else◌, mem, trim_space, to_lower, equal_fold, contains,
  has_suffix, trim_suffix, trim_byte, split_host_port,
}

pub data Resolver : Type 0 where
  header subdomain : Resolver

-- ResolverHeader, ResolverSubdomain
unfoldable pub resolver_name : Resolver → Str
resolver_name header = str "header"
resolver_name subdomain = str "subdomain"

pub record Record : Type 0 where
  pub id : Str
  pub slug : Str
  pub name : Str
  pub status : Str

unfoldable pub is_active : Record → Bool
unfolding ◌==◌
is_active r = r.status == str "active"

-- What Get or GetBySlug returns: a record, ErrTenantNotFound or another error.
pub data Answer : Type 0 where
  found : Record → Answer
  not_found : Answer
  unreachable : Str → Answer

pub record Directory : Type 0 where
  pub get : Str → Answer
  pub get_by_slug : Str → Answer

-- A byte of a tenant id after the first, and the first.
unfoldable pub id_byte : Bool → ℕ → Bool
id_byte later c =
    leb b'a' c && leb c b'z'
    || leb b'A' c && leb c b'Z'
    || leb b'0' c && leb c b'9'
    || later && (eqb c b'.' || eqb c b'_' || eqb c b'-')

unfoldable pub id_bytes : Bool → Str → Bool
unfolding id_byte
id_bytes later [] = true
id_bytes later (c ∷ s) = id_byte later c && id_bytes true s

abbrev pub max_tenant_id_length : ℕ
max_tenant_id_length = 64

unfoldable pub valid_tenant_id : Str → Bool
unfolding id_bytes ◌==◌
valid_tenant_id id =
    if id == [] || ltb max_tenant_id_length (length id) then false else id_bytes false id

unfoldable pub normalize_slug : Str → Str
unfolding trim_space to_lower
normalize_slug slug = to_lower (trim_space slug)

unfoldable pub valid_slug : Str → Bool
unfolding valid_tenant_id to_lower ◌==◌
valid_slug slug = slug == to_lower slug && valid_tenant_id slug

pub record Request : Type 0 where
  pub path : Str
  pub host : Str
  -- r.Header.Values
  pub header_values : Str → List Str

abbrev pub or_default_header : Str → Str
or_default_header name = if name == [] then str "X-Tenant-ID" else name

abbrev pub single : List Str → Str
single (v ∷ []) = trim_space v
single _ = []

unfoldable pub header_extractor : Str → Request → Str
header_extractor name r = single (r.header_values (or_default_header (trim_space name)))

abbrev or_whole : Str → Option Str → Str
or_whole host none = host
or_whole host (some h) = h

-- The host without port and final dot, in lower case.
unfoldable pub bare_host : Str → Str
unfolding split_host_port trim_suffix to_lower trim_space
bare_host raw =
    let host = to_lower (trim_space raw) in
    trim_suffix (or_whole host (split_host_port host)) (str ".")

abbrev one_label : Str → Str
one_label label = if label == [] || contains label (str ".") then [] else label

unfoldable pub base_suffix : Str → Str
unfolding trim_byte trim_space to_lower
base_suffix base_domain = str "." ++ to_lower (trim_byte b'.' (trim_space base_domain))

unfoldable pub subdomain_extractor : Str → Request → Str
unfolding bare_host base_suffix has_suffix trim_suffix contains ◌==◌
subdomain_extractor base_domain r =
    let host = bare_host r.host in
    let suffix = base_suffix base_domain in
    if has_suffix host suffix then one_label (trim_suffix host suffix) else []

-- WithRequestTenant: the tenant that the context then carries.
unfoldable pub with_request_tenant : Str → Option Str
unfolding trim_space ◌==◌
with_request_tenant tenant_id =
    let trimmed = trim_space tenant_id in if trimmed == [] then none else some trimmed
