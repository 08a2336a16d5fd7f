-- ===== src/Tenancy/Resolver/Isolation.antt =====
-- What Middleware lets through.
use superapi.Prelude.{
  ℕ, Str, ◌≡◌, ◌≢◌, refl, ◌∙◌, ap, Bool, true, false, not, ◌&&◌, Option, some, List, [], ◌∷◌, ◌==◌,
  arith, ◌⊎◌, inl, inr, Bool-cases, if◌then◌else◌, mem, trim_space, trim_space-plain, is_plain, all,
}
use superapi.Tenancy.Cache.{ValidationCache, new_validation_cache}
use superapi.Tenancy.Resolver.{
  Resolver, header, subdomain, Directory, Request, header_extractor, single, or_default_header,
  valid_tenant_id, with_request_tenant, id_bytes,
}
use superapi.Tenancy.Resolver.Lookup.{
  Clock, Looked, tenant, error, lookup_tenant, Exchange, look_up_all,
}
use superapi.Tenancy.Resolver.Fresh.{Says, Among, SaidInTime, lookup_tenant-recent}
use superapi.Tenancy.Resolver.Handler.{
  next, Middleware, canonical, well_formed, answer_of, judge, without_directory, validated, serve,
}

-- One request of a middleware's life: the clock, the directory's answers and the request.
pub record Arrival : Type 0 where
  pub clock : Clock
  pub directory : Directory
  pub request : Request

module _ (m : Middleware) where
  unfoldable pub serve_all : List Arrival → Option ValidationCache → Option ValidationCache
  serve_all [] cache = cache
  serve_all (a ∷ as') cache = serve_all as' (serve m a.clock a.directory a.request cache).0

  -- The value that a request asks the directory about, if it comes to that.
  unfoldable pub asked_value : Request → Str
  asked_value r = canonical m.resolver (m.extract r)

  asks : Request → Bool
  asks r =
      not (mem r.path m.exempt)
      && not (m.extract r == [])
      && well_formed m.resolver (canonical m.resolver (m.extract r))
      && m.has_directory

  pub exchange_of : Arrival → Exchange
  unfolding asked_value
  exchange_of a = record {
    clock = a.clock;
    value = asked_value a.request;
    answer = answer_of m.resolver a.directory (asked_value a.request);
  }

  pub exchanges : List Arrival → List Exchange
  exchanges [] = []
  exchanges (a ∷ as') = if asks a.request then exchange_of a ∷ exchanges as' else exchanges as'

  judge-cache : (p : Option ValidationCache × Looked) → (judge p).0 ≡ p.0
  judge-cache (cache, error e) = refl
  judge-cache (cache, tenant id true) = refl
  judge-cache (cache, tenant id false) = refl

  without_directory-cache :
      (r : Resolver) (value : Str) (cache : Option ValidationCache)
      → (without_directory r value cache).0 ≡ cache
  without_directory-cache header value cache = refl
  without_directory-cache subdomain value cache = refl

  serve-cache :
      (a : Arrival) (cache : Option ValidationCache)
      → (serve m a.clock a.directory a.request cache).0 ≡ (
          if asks a.request
          then (let x = exchange_of a in
              (lookup_tenant x.clock m.resolver x.value x.answer cache).0)
          else cache)
  unfolding serve asks exchange_of asked_value validated
  serve-cache a cache =
      let value = canonical m.resolver (m.extract a.request) in
      ground (
        arith,
        without_directory-cache m.resolver value cache,
        judge-cache
            (lookup_tenant a.clock m.resolver value (answer_of m.resolver a.directory value) cache),
      )

  serve_all-cache :
      (as' : List Arrival) (cache : Option ValidationCache)
      → serve_all as' cache ≡ look_up_all m.resolver (exchanges as') cache
  unfolding serve_all exchanges look_up_all
  serve_all-cache [] cache = refl
  serve_all-cache (a ∷ as') cache =
      let served = serve-cache a cache in
      let rest = serve_all-cache as' (serve m a.clock a.directory a.request cache).0 in
      elim (Bool-cases (asks a.request)) [
        | inl e ↦ rw e (rest ∙ ap (look_up_all m.resolver (exchanges as')) (rw e at served))
        | inr e ↦ rw e (rest ∙ ap (look_up_all m.resolver (exchanges as')) (rw e at served))
      ]

  -- What lets a request through, from the end of the handler to its beginning.
  judge-next :
      (p : Option ValidationCache × Looked) (t : Option Str)
      → (judge p).1 ≡ next t
      → (id : Str) × (p.1 ≡ tenant id true) × (t ≡ with_request_tenant id)
  judge-next (cache, error e) t h = cc
  judge-next (cache, tenant id true) t h = (id, refl, ground arith)
  judge-next (cache, tenant id false) t h = cc

  passed-lookup :
      (a : Arrival) (cache : Option ValidationCache) (t : Option Str)
      → mem a.request.path m.exempt ≡ false
      → m.has_directory ≡ true
      → (serve m a.clock a.directory a.request cache).1 ≡ next t
      → (id : Str) × ((lookup_tenant a.clock m.resolver
            (asked_value a.request)
            (answer_of m.resolver a.directory (asked_value a.request))
            cache).1
          ≡ tenant id true)
        × (t ≡ with_request_tenant id)
  unfolding serve asked_value validated
  passed-lookup a cache t path dir h =
      let value = canonical m.resolver (m.extract a.request) in
      judge-next
        (lookup_tenant a.clock m.resolver value (answer_of m.resolver a.directory value) cache) t
        (ground arith)

  -- A request that is not exempt and goes on with a tenant, at a middleware with a directory and a
  -- cache that was new: the tenant is the trimmed id of a record that the directory gives as active
  -- for the request's value, now, or gave to an earlier request with the same value no longer ago
  -- than the time to live.
  pub serve-recent :
      (ttl : ℕ) (before : List Arrival) (a : Arrival) (t : Option Str)
      → mem a.request.path m.exempt ≡ false
      → m.has_directory ≡ true
      → (serve m a.clock a.directory a.request
          (serve_all before (some (new_validation_cache ttl)))).1
        ≡ next t
      → (id : Str) × (t ≡ with_request_tenant id)
        × (Says (answer_of m.resolver a.directory (asked_value a.request)) id
            ⊎ Among (SaidInTime ttl a.clock.first (asked_value a.request) id) (exchanges before))
  serve-recent ttl before a t path dir h =
      let cache = serve_all before (some (new_validation_cache ttl)) in
      let (id, active, same) = passed-lookup a cache t path dir h in
      let looked = rw serve_all-cache at active in
      let x : Exchange = record {
        clock = a.clock;
        value = asked_value a.request;
        answer = answer_of m.resolver a.directory (asked_value a.request);
      } in
      (id, same, lookup_tenant-recent m.resolver ttl (exchanges before) x id looked)

  well_formed-next :
      (a : Arrival) (cache : Option ValidationCache) (t : Option Str)
      → mem a.request.path m.exempt ≡ false
      → (serve m a.clock a.directory a.request cache).1 ≡ next t
      → ((m.extract a.request == []) ≡ false)
        × (well_formed m.resolver (asked_value a.request) ≡ true)
  unfolding serve asked_value
  well_formed-next a cache t path h = ground arith

id_bytes-plain : (later : Bool) (s : Str) → id_bytes later s ≡ true → all is_plain s ≡ true
unfolding id_bytes
id_bytes-plain later [] h = refl
id_bytes-plain later (c ∷ s) h = ground (arith, id_bytes-plain true s)

-- A valid tenant id is attached as it stands.
with_request_tenant-valid : (s : Str) → valid_tenant_id s ≡ true → with_request_tenant s ≡ some s
unfolding valid_tenant_id with_request_tenant
with_request_tenant-valid s h =
    ground (arith, trim_space-plain s (id_bytes-plain false s (ground arith)))

single_value :
    (vs : List Str)
    → (single vs == []) ≡ false
    → (v : Str) × (vs ≡ v ∷ []) × (single vs ≡ trim_space v)
unfolding ◌==◌
single_value [] h = cc
single_value (v ∷ []) h = (v, refl, refl)
single_value (v ∷ w ∷ vs) h = cc

-- Without a directory, a request that is not exempt goes on at the header resolver only if the
-- header has one value, whose trimmed form is a valid tenant id, and then goes on with exactly that
-- as its tenant.
pub header_without_directory :
    (exempt : List Str) (name : Str) (a : Arrival) (cache : Option ValidationCache) (t : Option Str)
    → mem a.request.path exempt ≡ false
    → (serve
        (record {
          exempt = exempt;
          resolver = header;
          extract = header_extractor name;
          has_directory = false;
        })
        a.clock
        a.directory
        a.request
        cache).1
      ≡ next t
    → (v : Str) × (a.request.header_values (or_default_header (trim_space name)) ≡ v ∷ [])
      × (valid_tenant_id (trim_space v) ≡ true)
      × (t ≡ some (trim_space v))
unfolding serve validated header_extractor canonical well_formed
header_without_directory exempt name a cache t path h =
    let values = a.request.header_values (or_default_header (trim_space name)) in
    let (v, one, raw) = single_value values (ground arith) in
    let valid : valid_tenant_id (single values) ≡ true = ground arith in
    let on : t ≡ with_request_tenant (single values) = ground arith in
    (v, one, rw raw at valid, on ∙ with_request_tenant-valid (single values) valid ∙ ap some raw)

-- Without a directory the subdomain resolver lets no request on that is not exempt.
pub subdomain_without_directory :
    (m : Middleware) (a : Arrival) (cache : Option ValidationCache) (t : Option Str)
    → mem a.request.path m.exempt ≡ false
    → m.resolver ≡ subdomain
    → m.has_directory ≡ false
    → (serve m a.clock a.directory a.request cache).1 ≢ next t
unfolding serve validated
subdomain_without_directory m a cache t path sub dir h = ground (
  arith,
  ap (λ r. (without_directory r (canonical m.resolver (m.extract a.request)) cache).1) sub,
)
