-- ===== src/Tenancy/Resolver/Tests.antt =====
-- The tenant resolver on small requests, and the theorems at them.
use superapi.Prelude.{
  ℕ, Str, String, str, ◌≡◌, ◌≢◌, refl, true, false, none, some, [], ◌∷◌, ◌==◌, ◌⊎◌, mem, trim_space,
  if◌then◌else◌,
}
use superapi.Tenancy.Cache.{new_validation_cache}
use superapi.Tenancy.Resolver.{
  header, subdomain, Record, Answer, found, not_found, unreachable, Directory, Request,
  header_extractor, subdomain_extractor, or_default_header, valid_tenant_id, valid_slug,
  normalize_slug, with_request_tenant,
}
use superapi.Tenancy.Resolver.Lookup.{Clock, tenant, lookup_tenant, Exchange, look_up_all}
use superapi.Tenancy.Resolver.Fresh.{
  Says, Among, SaidInTime, lookup_tenant-recent, cache_key-injective,
}
use superapi.Tenancy.Resolver.Handler.{
  next, refused, tenant_invalid, tenant_not_found, Middleware, canonical, well_formed, answer_of,
  validated, serve,
}
use superapi.Tenancy.Resolver.Isolation.{
  Arrival, serve_all, asked_value, exchanges, serve-recent, header_without_directory,
  subdomain_without_directory,
}

abbrev acme : Record
acme = record { id = str "t1"; slug = str "acme"; name = str "Acme"; status = str "active" }

abbrev suspended : Record
suspended = record { id = str "t2"; slug = str "zeta"; name = str "Zeta"; status = str "suspended" }

abbrev by_slug : Str → Answer
by_slug slug =
    if slug == str "acme"
    then found acme
    else if slug == str "zeta"
    then found suspended
    else not_found

abbrev table : Directory
table = record { get = λ id. not_found; get_by_slug = by_slug }

abbrev down : Directory
down = record {
  get = λ id. unreachable (str "down");
  get_by_slug = λ slug. unreachable (str "down");
}

abbrev asking : String → Request
asking host = record { path = str "/api/v1/projects"; host = str host; header_values = λ name. [] }

abbrev with_header : String → Request
with_header value = record {
  path = str "/api/v1/projects";
  host = str "localhost";
  header_values = λ name. if name == str "X-Tenant-ID" then str value ∷ [] else [];
}

abbrev at_time : ℕ → Clock
at_time t = record { first = t; second = t; put = t }

abbrev by_host : Middleware
by_host = record {
  exempt = str "/healthz" ∷ [];
  resolver = subdomain;
  extract = subdomain_extractor (str "example.com");
  has_directory = true;
}

abbrev by_host_only : Middleware
by_host_only = record {
  exempt = [];
  resolver = subdomain;
  extract = subdomain_extractor (str "example.com");
  has_directory = false;
}

abbrev by_header : Middleware
by_header = record {
  exempt = str "/healthz" ∷ [];
  resolver = header;
  extract = header_extractor [];
  has_directory = false;
}

label_of_host :
    subdomain_extractor (str "example.com") (asking "Acme.Example.com:8080") ≡ str "acme"
unfolding subdomain_extractor
label_of_host = refl

no_nested_label : subdomain_extractor (str "example.com") (asking "a.b.example.com") ≡ []
unfolding subdomain_extractor
no_nested_label = refl

-- The directory goes down after the first request; the cache still knows the tenant.
abbrev first_request : Arrival
first_request = record {
  clock = at_time 10;
  directory = table;
  request = asking "acme.example.com";
}

abbrev second_request : Arrival
second_request = record {
  clock = at_time 50;
  directory = down;
  request = asking "ACME.example.com";
}

remembered_tenant :
    (serve by_host
      (at_time 50)
      down
      (asking "ACME.example.com")
      (serve_all by_host (first_request ∷ []) (some (new_validation_cache 100)))).1
    ≡ next (some (str "t1"))
unfolding serve validated canonical well_formed lookup_tenant subdomain_extractor
    new_validation_cache valid_slug normalize_slug with_request_tenant serve_all mem trim_space
remembered_tenant = refl

suspended_tenant :
    (serve by_host (at_time 50) table (asking "zeta.example.com") none).1 ≡ refused tenant_not_found
unfolding serve validated canonical well_formed lookup_tenant subdomain_extractor valid_slug
    normalize_slug mem trim_space
suspended_tenant = refl

header_accepted :
    (serve by_header (at_time 1) down (with_header " t-1 ") none).1 ≡ next (some (str "t-1"))
unfolding serve validated canonical well_formed header_extractor valid_tenant_id with_request_tenant
    mem trim_space
header_accepted = refl

header_malformed :
    (serve by_header (at_time 1) down (with_header "-t") none).1 ≡ refused tenant_invalid
unfolding serve canonical well_formed header_extractor valid_tenant_id mem trim_space
header_malformed = refl

not_exempt :
    (m : Middleware)
    → m.exempt ≡ str "/healthz" ∷ []
    → mem (str "/api/v1/projects") m.exempt ≡ false
unfolding mem ◌==◌
not_exempt m e = rw e refl

cache_key-injective_example : (header ≡ header) × (str "t1" ≡ str "t1")
cache_key-injective_example = cache_key-injective header header (str "t1") (str "t1") refl

abbrev known : Exchange
known = record { clock = at_time 10; value = str "acme"; answer = found acme }

abbrev unknown : Exchange
unknown = record { clock = at_time 50; value = str "acme"; answer = unreachable (str "down") }

still_known :
    (lookup_tenant unknown.clock subdomain unknown.value unknown.answer
      (look_up_all subdomain (known ∷ []) (some (new_validation_cache 100)))).1
    ≡ tenant (str "t1") true
unfolding lookup_tenant look_up_all new_validation_cache
still_known = refl

lookup_tenant-recent_example :
    Says unknown.answer (str "t1")
    ⊎ Among (SaidInTime 100 unknown.clock.first unknown.value (str "t1")) (known ∷ [])
lookup_tenant-recent_example =
    lookup_tenant-recent subdomain 100 (known ∷ []) unknown (str "t1") still_known

serve-recent_example :
    (id : Str) × (some (str "t1") ≡ with_request_tenant id)
    × (Says (answer_of subdomain down (asked_value by_host (asking "ACME.example.com"))) id
        ⊎ Among
            (SaidInTime 100 50 (asked_value by_host (asking "ACME.example.com")) id)
            (exchanges by_host (first_request ∷ [])))
serve-recent_example =
    serve-recent by_host 100 (first_request ∷ []) second_request (some (str "t1"))
      (not_exempt by_host refl) refl remembered_tenant

abbrev header_request : Arrival
header_request = record { clock = at_time 1; directory = down; request = with_header " t-1 " }

header_without_directory_example :
    (v : Str) × (header_request.request.header_values (or_default_header (trim_space [])) ≡ v ∷ [])
    × (valid_tenant_id (trim_space v) ≡ true)
    × (some (str "t-1") ≡ some (trim_space v))
header_without_directory_example =
    header_without_directory (str "/healthz" ∷ []) [] header_request none (some (str "t-1"))
      (unfold mem ◌==◌ in refl) header_accepted

subdomain_without_directory_example :
    (serve by_host_only (at_time 10) table (asking "acme.example.com") none).1
    ≢ next (some (str "t1"))
subdomain_without_directory_example =
    subdomain_without_directory by_host_only first_request none (some (str "t1"))
      (unfold mem in refl) refl refl
