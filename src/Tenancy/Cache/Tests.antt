-- ===== src/Tenancy/Cache/Tests.antt =====
-- The tenant cache on small inputs, and the theorems at them.
use superapi.Prelude.{
  ℕ, ◌+◌, ltb, if◌then◌else◌, ◌≤◌, Str, str, ◌≡◌, refl, true, false, ◌&&◌, none, some, List, [],
  ◌∷◌, ◌==◌, All, mem,
}
use superapi.Tenancy.Cache.{
  CachedTenant, new_validation_cache, new_validation_cache_sized, get_cached, put_cached, len,
  negative_ttl,
}
use superapi.Tenancy.Cache.History.{Access, get_access, put_access, after, puts_onto}
use superapi.Tenancy.Cache.Bounds.{validation_cache_bounds}
use superapi.Tenancy.Cache.Lru.{keys_of}
use superapi.Tenancy.Cache.Log.{Logged}
use superapi.Tenancy.Cache.Recency.{IsFresh, get_cached-recent}
use superapi.Tenancy.Cache.Negative.{Shortened, inactive_tenant, put_cached-told}
use superapi.Tenancy.Cache.Retention.{IsOther, flood_keeps_active}

abbrev acme : CachedTenant
acme = record { id = str "t1"; active = true }

abbrev unknown : CachedTenant
unknown = record { id = []; active = false }

abbrev history : List Access
history = put_access 10 (str "a") acme ∷ put_access 11 (str "b") unknown ∷ []

abbrev flood : List Access
flood =
    put_access 12 (str "x") unknown
    ∷ get_access 13 13 (str "x")
    ∷ put_access 14 (str "y") unknown
    ∷ []

told_in_time :
    (get_cached 110 110 (str "a") (after history (new_validation_cache 100))).1 ≡ some acme
unfolding after new_validation_cache
told_in_time = refl

not_told_late : (get_cached 111 111 (str "a") (after history (new_validation_cache 100))).1 ≡ none
unfolding after new_validation_cache
not_told_late = refl

-- With one place each, the least recently used entry goes.
evicts :
    (get_cached 20 20 (str "a") (
      put_cached 12
        (str "c")
        acme
        (put_cached 10 (str "a") acme (new_validation_cache_sized 100 1 1)))).1
    ≡ none
unfolding get_cached put_cached new_validation_cache_sized
evicts = refl

negative_ttls :
    (negative_ttl 30000000000 ≡ 7500000000)
    × (negative_ttl 2000000000 ≡ 1000000000)
    × (negative_ttl 5 ≡ 5)
unfolding negative_ttl
negative_ttls = (refl, refl, refl)

put_cached-told_example :
    (lifetime : ℕ) × Shortened 30000000000 lifetime
    × ((get_cached 20 7500000012 (str "x") (
          put_cached 12
            (str "x")
            (inactive_tenant [])
            (after history (new_validation_cache 30000000000)))).1
        ≡ (if ltb (12 + lifetime) 7500000012 then none else some (inactive_tenant [])))
put_cached-told_example = put_cached-told 30000000000 history 12 20 7500000012 (str "x") []

validation_cache_bounds_example :
    (len (after history (new_validation_cache 100)).active ≤ 10000)
    × (len (after history (new_validation_cache 100)).inactive ≤ 1000)
    × ((k : Str)
        → mem k (keys_of (after history (new_validation_cache 100)).active.order)
            && mem k (keys_of (after history (new_validation_cache 100)).inactive.order)
          ≡ false)
validation_cache_bounds_example = validation_cache_bounds 100 history

get_cached-recent_example : Logged (IsFresh 100 110 110 (str "a") acme) (puts_onto history [])
get_cached-recent_example = get_cached-recent 100 history 110 110 (str "a") acme told_in_time

flood-IsOther : All (IsOther (str "a")) flood
unfolding ◌==◌
flood-IsOther = ((refl, refl), (refl, ((refl, refl), tt)))

flood_keeps_active_example :
    (get_cached 110 110 (str "a") (after flood (after history (new_validation_cache 100)))).1
    ≡ some acme
flood_keeps_active_example =
    flood_keeps_active 100 history flood 110 110 (str "a") (str "t1") flood-IsOther told_in_time
