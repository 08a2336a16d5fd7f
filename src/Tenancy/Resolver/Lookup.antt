-- ===== src/Tenancy/Resolver/Lookup.antt =====
-- internal/tenancy/resolver.go, lookupTenant: the directory behind the cache.
use superapi.Prelude.{ℕ, Str, str, Bool, false, Option, none, some, List, [], ◌∷◌, ◌++◌}
use superapi.Tenancy.Cache.{CachedTenant, ValidationCache, get_cached, put_cached}
use superapi.Tenancy.Resolver.{
  Resolver, resolver_name, is_active, Answer, found, not_found, unreachable,
}

-- cacheKey
unfoldable pub cache_key : Resolver → Str → Str
unfolding resolver_name
cache_key resolver value = resolver_name resolver ++ str ":" ++ value

-- The clock, as the lookup reads it: twice for the cache's get, and once for its put.
pub record Clock : Type 0 where
  pub first : ℕ
  pub second : ℕ
  pub put : ℕ

pub data Looked : Type 0 where
  tenant : Str → Bool → Looked
  error : Str → Looked

abbrev pub of_cached : CachedTenant → Looked
of_cached t = tenant t.id t.active

-- What an answer of the directory is remembered as: nothing, if it is an error.
unfoldable pub remembered : Answer → Option CachedTenant
unfolding is_active
remembered (found r) = some (record { id = r.id; active = is_active r })
remembered not_found = some (record { id = []; active = false })
remembered (unreachable e) = none

abbrev pub ask : ℕ → Str → Answer → Option ValidationCache → Option ValidationCache × Looked
ask now key (unreachable e) cache = (cache, error e)
ask now key (found r) none = (none, tenant r.id (is_active r))
ask now key (found r) (some c) = (
  some (put_cached now key (record { id = r.id; active = is_active r }) c),
  tenant r.id (is_active r),
)
ask now key not_found none = (none, tenant [] false)
ask now key not_found (some c) =
    (some (put_cached now key (record { id = []; active = false }) c), tenant [] false)

abbrev pub on_hit :
    Clock → Str → Answer → ValidationCache × Option CachedTenant → Option ValidationCache × Looked
on_hit clock key answer (c, some t) = (some c, of_cached t)
on_hit clock key answer (c, none) = ask clock.put key answer (some c)

-- `answer` is what the directory would say; it is not asked on a hit. A nil cache never hits.
unfoldable pub lookup_tenant :
    Clock → Resolver → Str → Answer → Option ValidationCache → Option ValidationCache × Looked
unfolding get_cached put_cached cache_key is_active
lookup_tenant clock resolver value answer none =
    ask clock.put (cache_key resolver value) answer none
lookup_tenant clock resolver value answer (some c) =
    let key = cache_key resolver value in
    on_hit clock key answer (get_cached clock.first clock.second key c)

-- One call, and the calls of a middleware's life.
pub record Exchange : Type 0 where
  pub clock : Clock
  pub value : Str
  pub answer : Answer

module _ (resolver : Resolver) where
  unfoldable pub look_up_all : List Exchange → Option ValidationCache → Option ValidationCache
  unfolding lookup_tenant
  look_up_all [] cache = cache
  look_up_all (x ∷ xs) cache =
      look_up_all xs (lookup_tenant x.clock resolver x.value x.answer cache).0
