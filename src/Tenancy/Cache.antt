-- ===== src/Tenancy/Cache.antt =====
-- internal/tenancy/cache.go: the tenant validation cache, two bounded LRU segments whose entries
-- expire. Times and durations are numbers of nanoseconds; each read of the clock is an argument.
--
-- `order` is the linked list, its front first. `items` is the index of that list by key: it holds
-- every element under its key, so a lookup in it is the search for the key in the list.
pub mod Lru
pub mod History
pub mod Retention
pub mod Segment
pub mod Bounds
pub mod Log
pub mod Recency
pub mod Negative
mod Tests
use superapi.Prelude.{
  ℕ, zero, suc, ◌+◌, ◌/◌, Str, String, str, Bool, true, false, Option, none, some, List, [], ◌∷◌,
  ◌==◌, length, ltb, if◌then◌else◌,
}

abbrev pub max_cache_entries : ℕ
max_cache_entries = 10000

abbrev pub max_negative_cache_entries : ℕ
max_negative_cache_entries = 1000

-- time.Second
abbrev pub min_negative_ttl : ℕ
min_negative_ttl = 1000000000

abbrev floor_ttl : ℕ → ℕ
floor_ttl ttl = if ltb ttl min_negative_ttl then min_negative_ttl else ttl

unfoldable pub negative_ttl : ℕ → ℕ
negative_ttl positive =
    let ttl = floor_ttl (positive / 4) in if ltb positive ttl then positive else ttl

pub record LruEntry : Type 0 where
  pub key : Str
  pub value : Str
  pub expires : ℕ

pub record TtlLru : Type 0 where
  pub max : ℕ
  pub ttl : ℕ
  pub order : List LruEntry

unfoldable pub new_ttl_lru : ℕ → ℕ → TtlLru
new_ttl_lru max ttl = record { max = if ltb max 1 then 1 else max; ttl = ttl; order = [] }

-- l.items[key]
unfoldable pub element : Str → List LruEntry → Option LruEntry
element key [] = none
element key (e ∷ es) = if e.key == key then some e else element key es

-- removeElement of the element under a key
unfoldable pub remove_element : Str → List LruEntry → List LruEntry
remove_element key [] = []
remove_element key (e ∷ es) =
    let rest = remove_element key es in if e.key == key then es else e ∷ rest

abbrev get_element : ℕ → Str → TtlLru → Option LruEntry → TtlLru × Option Str
get_element now key l none = (l, none)
get_element now key l (some e) =
    if ltb e.expires now
    then (record l { order = remove_element key l.order }, none)
    else (record l { order = e ∷ remove_element key l.order }, some e.value)

unfoldable pub get : ℕ → Str → TtlLru → TtlLru × Option Str
unfolding element remove_element ◌==◌
get now key l = get_element now key l (element key l.order)

-- removeElement of the back of the list
unfoldable pub remove_back : List LruEntry → List LruEntry
remove_back [] = []
remove_back (e ∷ []) = []
remove_back (e ∷ f ∷ es) = e ∷ remove_back (f ∷ es)

-- `for l.order.Len() > l.max`, with a bound on the rounds
unfoldable pub evict : ℕ → ℕ → List LruEntry → List LruEntry
unfolding remove_back
evict zero max order = order
evict (suc fuel) max order =
    let more = evict fuel max (remove_back order) in if ltb max (length order) then more else order

abbrev put_element : LruEntry → Str → TtlLru → Option LruEntry → TtlLru
put_element new key l none = record l {
  order = evict (length (new ∷ l.order)) l.max (new ∷ l.order);
}
put_element new key l (some e) = record l { order = new ∷ remove_element key l.order }

unfoldable pub put : ℕ → Str → Str → TtlLru → TtlLru
unfolding element remove_element evict ◌==◌
put now key value l =
    put_element (record { key = key; value = value; expires = now + l.ttl }) key l
      (element key l.order)

unfoldable pub remove : Str → TtlLru → TtlLru
unfolding remove_element ◌==◌
remove key l = record l { order = remove_element key l.order }

unfoldable pub len : TtlLru → ℕ
len l = length l.order

pub record CachedTenant : Type 0 where
  pub id : Str
  pub active : Bool

pub record ValidationCache : Type 0 where
  pub active : TtlLru
  pub inactive : TtlLru

unfoldable pub new_validation_cache_sized : ℕ → ℕ → ℕ → ValidationCache
unfolding new_ttl_lru negative_ttl
new_validation_cache_sized ttl max_active max_inactive = record {
  active = new_ttl_lru max_active ttl;
  inactive = new_ttl_lru max_inactive (negative_ttl ttl);
}

unfoldable pub new_validation_cache : ℕ → ValidationCache
unfolding new_validation_cache_sized
new_validation_cache ttl =
    new_validation_cache_sized ttl max_cache_entries max_negative_cache_entries

abbrev from_inactive : ValidationCache → TtlLru × Option Str → ValidationCache × Option CachedTenant
from_inactive c (l, none) = (record c { inactive = l }, none)
from_inactive c (l, some id) =
    (record c { inactive = l }, some (record { id = id; active = false }))

abbrev from_active :
    ValidationCache
    → TtlLru × Option Str
    → ValidationCache × Option CachedTenant
    → ValidationCache × Option CachedTenant
from_active c (l, some id) later =
    (record c { active = l }, some (record { id = id; active = true }))
from_active c (l, none) later = later

-- The active segment is asked first, and at the second clock reading the other one.
unfoldable pub get_cached : ℕ → ℕ → Str → ValidationCache → ValidationCache × Option CachedTenant
unfolding get
get_cached now later key c =
    let found = get now key c.active in
    from_active c found (from_inactive (record c { active = found.0 }) (get later key c.inactive))

unfoldable pub put_cached : ℕ → Str → CachedTenant → ValidationCache → ValidationCache
unfolding put remove
put_cached now key v c =
    if v.active
    then record { active = put now key v.id c.active; inactive = remove key c.inactive }
    else record { active = remove key c.active; inactive = put now key v.id c.inactive }
