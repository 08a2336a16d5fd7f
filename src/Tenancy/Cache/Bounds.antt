-- ===== src/Tenancy/Cache/Bounds.antt =====
-- Every history of the cache keeps its segments within their bounds and apart.
use superapi.Prelude.{
  ℕ, ◌≤◌, Str, ◌≡◌, refl, Bool, true, false, ◌&&◌, Option, none, some, List, [], ◌∷◌, ◌==◌, ==_iff,
  arith, mem, Bool-cases, inl, inr,
}
use superapi.Tenancy.Cache.{
  TtlLru, get, put, remove, len, CachedTenant, ValidationCache, new_validation_cache, get_cached,
  put_cached, max_cache_entries, max_negative_cache_entries, from_active, from_inactive,
}
use superapi.Tenancy.Cache.History.{Access, get_access, put_access, after}
use superapi.Tenancy.Cache.Lru.{keys_of, mem-remove_element, mem-remove_element_self}
use superapi.Tenancy.Cache.Segment.{
  IsValid, remove-IsValid, get-IsValid, put-IsValid, keys-get, keys-put,
}

-- Both segments are valid and within the sizes that the program gives them, and no key stands in
-- both.
pub record IsBounded (c : ValidationCache) : Type 0 where
  pub active_valid : IsValid c.active
  pub inactive_valid : IsValid c.inactive
  pub active_max : c.active.max ≤ max_cache_entries
  pub inactive_max : c.inactive.max ≤ max_negative_cache_entries
  pub apart : (k : Str) → mem k (keys_of c.active.order) && mem k (keys_of c.inactive.order) ≡ false

pub new_validation_cache-IsBounded : (ttl : ℕ) → IsBounded (new_validation_cache ttl)
unfolding new_validation_cache mem
new_validation_cache-IsBounded ttl = record {
  active_valid = ground arith;
  inactive_valid = ground arith;
  active_max = ground arith;
  inactive_max = ground arith;
  apart = λ k. refl;
}

max-get : (now : ℕ) (k : Str) (l : TtlLru) → (get now k l).0.max ≡ l.max
unfolding get
max-get now k l = ground arith

max-put : (now : ℕ) (k id : Str) (l : TtlLru) → (put now k id l).max ≡ l.max
unfolding put
max-put now k id l = ground arith

max-remove : (k : Str) (l : TtlLru) → (remove k l).max ≡ l.max
unfolding remove
max-remove k l = refl

and_comm : (a b : Bool) → a && b ≡ false → b && a ≡ false
and_comm a b h = ground arith

both_gone :
    (a b a' b' : Bool)
    → (a ≡ false → a' ≡ false)
    → (b ≡ false → b' ≡ false)
    → a && b ≡ false
    → a' && b' ≡ false
both_gone true b a' b' f g h = ground (arith, g h)
both_gone false b a' b' f g h = ground (arith, f refl)

-- The four ways in which the segments change.
get_both-IsBounded :
    (now later : ℕ) (k : Str) (c : ValidationCache)
    → IsBounded c
    → IsBounded (record { active = (get now k c.active).0; inactive = (get later k c.inactive).0 })
get_both-IsBounded now later k c v = record {
  active_valid = get-IsValid now k c.active v.active_valid;
  inactive_valid = get-IsValid later k c.inactive v.inactive_valid;
  active_max = rw max-get v.active_max;
  inactive_max = rw max-get v.inactive_max;
  apart = λ j.
      both_gone _ _ _ _ (keys-get now k j c.active) (keys-get later k j c.inactive) (v.apart j);
}

get_active-IsBounded :
    (now : ℕ) (k : Str) (c : ValidationCache)
    → IsBounded c
    → IsBounded (record c { active = (get now k c.active).0 })
get_active-IsBounded now k c v = record {
  active_valid = get-IsValid now k c.active v.active_valid;
  inactive_valid = v.inactive_valid;
  active_max = rw max-get v.active_max;
  inactive_max = v.inactive_max;
  apart = λ j. both_gone _ _ _ _ (keys-get now k j c.active) (λ h. h) (v.apart j);
}

from_active-IsBounded :
    (c : ValidationCache) (p q : TtlLru × Option Str)
    → IsBounded (record c { active = p.0 })
    → IsBounded (record { active = p.0; inactive = q.0 })
    → IsBounded (from_active c p (from_inactive (record c { active = p.0 }) q)).0
from_active-IsBounded c (l, some id) q h k = h
from_active-IsBounded c (l, none) (m, some id) h k = k
from_active-IsBounded c (l, none) (m, none) h k = k

pub get_cached-IsBounded :
    (now later : ℕ) (k : Str) (c : ValidationCache)
    → IsBounded c
    → IsBounded (get_cached now later k c).0
unfolding get_cached
get_cached-IsBounded now later k c v =
    from_active-IsBounded c (get now k c.active) (get later k c.inactive)
      (get_active-IsBounded now k c v) (get_both-IsBounded now later k c v)

-- A key that is put in one segment and removed from the other is in one of them at most.
apart-put :
    (now : ℕ) (k id j : Str) (l m : TtlLru)
    → IsValid m
    → mem j (keys_of l.order) && mem j (keys_of m.order) ≡ false
    → mem j (keys_of (put now k id l).order) && mem j (keys_of (remove k m).order) ≡ false
unfolding remove
apart-put now k id j l m v h = elim (Bool-cases (k == j)) [
  | inl same ↦ ground (arith, ==_iff k j, mem-remove_element_self k m.order v.distinct)
  | inr other ↦ both_gone _ _ _ _ (keys-put now k j id l other) (mem-remove_element k j m.order) h
]

put_active-IsBounded :
    (now : ℕ) (k id : Str) (c : ValidationCache)
    → IsBounded c
    → IsBounded (record { active = put now k id c.active; inactive = remove k c.inactive })
put_active-IsBounded now k id c v = record {
  active_valid = put-IsValid now k id c.active v.active_valid;
  inactive_valid = remove-IsValid k c.inactive v.inactive_valid;
  active_max = rw max-put v.active_max;
  inactive_max = rw max-remove v.inactive_max;
  apart = λ j. apart-put now k id j c.active c.inactive v.inactive_valid (v.apart j);
}

put_inactive-IsBounded :
    (now : ℕ) (k id : Str) (c : ValidationCache)
    → IsBounded c
    → IsBounded (record { active = remove k c.active; inactive = put now k id c.inactive })
put_inactive-IsBounded now k id c v = record {
  active_valid = remove-IsValid k c.active v.active_valid;
  inactive_valid = put-IsValid now k id c.inactive v.inactive_valid;
  active_max = rw max-remove v.active_max;
  inactive_max = rw max-put v.inactive_max;
  apart = λ j.
      let before =
        and_comm (mem j (keys_of c.active.order)) (mem j (keys_of c.inactive.order)) (v.apart j) in
      and_comm (mem j (keys_of (put now k id c.inactive).order))
        (mem j (keys_of (remove k c.active).order))
        (apart-put now k id j c.inactive c.active v.active_valid before);
}

pub put_cached-IsBounded :
    (now : ℕ) (k : Str) (t : CachedTenant) (c : ValidationCache)
    → IsBounded c
    → IsBounded (put_cached now k t c)
unfolding put_cached
put_cached-IsBounded now k t c v = elim (Bool-cases t.active) [
  | inl yes_active ↦ rw yes_active (put_active-IsBounded now k t.id c v)
  | inr not_active ↦ rw not_active (put_inactive-IsBounded now k t.id c v)
]

pub after-IsBounded :
    (xs : List Access) (c : ValidationCache) → IsBounded c → IsBounded (after xs c)
unfolding after
after-IsBounded [] c v = v
after-IsBounded (get_access now later k ∷ xs) c v =
    after-IsBounded xs (get_cached now later k c).0 (get_cached-IsBounded now later k c v)
after-IsBounded (put_access now k t ∷ xs) c v =
    after-IsBounded xs (put_cached now k t c) (put_cached-IsBounded now k t c v)

-- Whatever the calls and the clock, a cache holds at most 10000 active tenants and 1000 others, and
-- no key in both segments.
pub validation_cache_bounds :
    (ttl : ℕ) (xs : List Access)
    → (len (after xs (new_validation_cache ttl)).active ≤ 10000)
      × (len (after xs (new_validation_cache ttl)).inactive ≤ 1000)
      × ((k : Str)
          → mem k (keys_of (after xs (new_validation_cache ttl)).active.order)
              && mem k (keys_of (after xs (new_validation_cache ttl)).inactive.order)
            ≡ false)
unfolding len
validation_cache_bounds ttl xs =
    let v = after-IsBounded xs (new_validation_cache ttl) (new_validation_cache-IsBounded ttl) in
    (
      omega (arith, v.active_valid.fits, v.active_max),
      omega (arith, v.inactive_valid.fits, v.inactive_max),
      v.apart,
    )
