-- ===== src/Tenancy/Resolver/Handler.antt =====
-- internal/tenancy/resolver.go, Middleware: resolve the tenant of a request, validate it, and go on
-- with it or answer with an error.
use superapi.Prelude.{
  ℕ, Str, str, Bool, true, false, ◌&&◌, Option, none, some, List, [], ◌∷◌, ◌==◌, if◌then◌else◌, mem,
  trim_space, equal_fold, ltb,
}
use superapi.Tenancy.Cache.{ValidationCache, new_validation_cache}
use superapi.Tenancy.Resolver.{
  Resolver, header, subdomain, Answer, Directory, Request, header_extractor, subdomain_extractor,
  valid_tenant_id, valid_slug, normalize_slug, with_request_tenant,
}
use superapi.Tenancy.Resolver.Lookup.{Clock, Looked, tenant, error, lookup_tenant}

pub record ResolverConfig : Type 0 where
  pub resolver : Str
  pub header_name : Str
  pub base_domain : Str
  pub exempt_paths : List Str
  pub has_directory : Bool
  pub cache_ttl : ℕ

-- The responses that the middleware writes itself.
pub data Refusal : Type 0 where
  tenant_required tenant_invalid tenant_not_found : Refusal
  tenant_unavailable : Str → Refusal

abbrev pub status : Refusal → ℕ
status tenant_required = 400
status tenant_invalid = 400
status tenant_not_found = 404
status (tenant_unavailable e) = 503

-- `next` runs with the tenant that the context carries.
pub data Outcome : Type 0 where
  next : Option Str → Outcome
  refused : Refusal → Outcome

-- What the middleware keeps from its configuration.
pub record Middleware : Type 0 where
  pub exempt : List Str
  pub resolver : Resolver
  pub extract : Request → Str
  pub has_directory : Bool

unfoldable pub exempt_set : List Str → List Str
unfolding trim_space ◌==◌
exempt_set [] = []
exempt_set (p ∷ ps) =
    let trimmed = trim_space p in if trimmed == [] then exempt_set ps else trimmed ∷ exempt_set ps

unfoldable pub prepare : ResolverConfig → Middleware
unfolding exempt_set header_extractor subdomain_extractor equal_fold trim_space
prepare cfg =
    if equal_fold (trim_space cfg.resolver) (str "subdomain")
    then record {
      exempt = exempt_set cfg.exempt_paths;
      resolver = subdomain;
      extract = subdomain_extractor cfg.base_domain;
      has_directory = cfg.has_directory;
    }
    else record {
      exempt = exempt_set cfg.exempt_paths;
      resolver = header;
      extract = header_extractor cfg.header_name;
      has_directory = cfg.has_directory;
    }

-- The cache is made only where there is a directory and a time to live.
unfoldable pub initial_cache : ResolverConfig → Option ValidationCache
unfolding new_validation_cache
initial_cache cfg =
    if cfg.has_directory && ltb 0 cfg.cache_ttl
    then some (new_validation_cache cfg.cache_ttl)
    else none

-- The value in the form that the directory is asked with.
unfoldable pub canonical : Resolver → Str → Str
canonical header value = value
canonical subdomain value = normalize_slug value

unfoldable pub well_formed : Resolver → Str → Bool
well_formed header value = valid_tenant_id value
well_formed subdomain value = valid_slug value

abbrev pub answer_of : Resolver → Directory → Str → Answer
answer_of header d value = d.get value
answer_of subdomain d value = d.get_by_slug value

abbrev no_directory : Str
no_directory = str "the subdomain resolver needs a tenant directory (TENANCY_VALIDATE=true)"

abbrev pub judge : Option ValidationCache × Looked → Option ValidationCache × Outcome
judge (cache, error e) = (cache, refused (tenant_unavailable e))
judge (cache, tenant id true) = (cache, next (with_request_tenant id))
judge (cache, tenant id false) = (cache, refused tenant_not_found)

abbrev pub without_directory :
    Resolver → Str → Option ValidationCache → Option ValidationCache × Outcome
without_directory header value cache = (cache, next (with_request_tenant value))
without_directory subdomain value cache = (cache, refused (tenant_unavailable no_directory))

unfoldable pub validated :
    Middleware → Clock → Directory → Str → Option ValidationCache → Option ValidationCache × Outcome
validated m clock directory value cache =
    if m.has_directory
    then judge (lookup_tenant clock m.resolver value (answer_of m.resolver directory value) cache)
    else without_directory m.resolver value cache

-- The handler, with the answers of the directory to this request.
unfoldable pub serve :
    Middleware
    → Clock
    → Directory
    → Request
    → Option ValidationCache
    → Option ValidationCache × Outcome
serve m clock directory r cache =
    if mem r.path m.exempt
    then (cache, next none)
    else if m.extract r == []
    then (cache, refused tenant_required)
    else if well_formed m.resolver (canonical m.resolver (m.extract r))
    then validated m clock directory (canonical m.resolver (m.extract r)) cache
    else (cache, refused tenant_invalid)
