-- ===== src/Tenancy/Cache/Negative.antt =====
-- A tenant that is unknown or not active is told as such for a quarter of the time to live of an
-- active one, with a floor.
use superapi.Prelude.{
  ℕ, zero, suc, ◌+◌, ◌*◌, ◌/◌, ◌≤◌, ◌<◌, Str, ◌≡◌, refl, ap, ◌∙◌, Bool, true, false, Option, none,
  some, List, [], ◌∷◌, ◌==◌, ==-refl, length, ltb, if◌then◌else◌, arith, Option-cases, Bool-cases,
  inl, inr, ◌⊎◌,
}
use superapi.Tenancy.Cache.{
  LruEntry, TtlLru, element, get, put, evict, remove_back, remove, remove_element, negative_ttl,
  min_negative_ttl, CachedTenant, ValidationCache, new_validation_cache, get_cached, put_cached,
  from_active, from_inactive,
}
use superapi.Tenancy.Cache.History.{Access, after}
use superapi.Tenancy.Cache.Lru.{element-remove_element}
use superapi.Tenancy.Cache.Segment.{IsValid}
use superapi.Tenancy.Cache.Bounds.{IsBounded, after-IsBounded, new_validation_cache-IsBounded}
use superapi.Tenancy.Cache.Log.{new_validation_cache-IsRecorded}
use superapi.Tenancy.Cache.Recency.{after-IsRecorded}

-- A quarter of the time to live; a second, where a quarter is less than that; and all of it, where
-- it is less than a second itself.
abbrev pub Shortened : ℕ → ℕ → Type 0
Shortened positive lifetime =
    ((4 * min_negative_ttl ≤ positive) × (lifetime ≡ positive / 4))
    ⊎ (((min_negative_ttl ≤ positive)
          × (positive < 4 * min_negative_ttl)
          × (lifetime ≡ min_negative_ttl))
        ⊎ ((positive < min_negative_ttl) × (lifetime ≡ positive)))

negative_ttl-Shortened : (positive : ℕ) → Shortened positive (negative_ttl positive)
unfolding negative_ttl
negative_ttl-Shortened positive = ground arith

-- The front of a list stays while there is room for one element.
element-evict :
    (fuel max : ℕ) (key : Str) (new : LruEntry) (rest : List LruEntry)
    → 1 ≤ max
    → new.key == key ≡ true
    → element key (evict fuel max (new ∷ rest)) ≡ some new
unfolding evict remove_back element
element-evict zero max key new rest room same = rw same refl
element-evict (suc fuel) max key new [] room same = ground arith
element-evict (suc fuel) max key new (e ∷ es) room same =
    ground (arith, element-evict fuel max key new (remove_back (e ∷ es)) room same)

element-put :
    (now : ℕ) (key id : Str) (l : TtlLru)
    → IsValid l
    → element key (put now key id l).order
      ≡ some (record { key = key; value = id; expires = now + l.ttl })
unfolding put element
element-put now key id l v =
    let new : LruEntry = record { key = key; value = id; expires = now + l.ttl } in
    elim (Option-cases (element key l.order)) [
      | inl missing ↦
          rw missing
            (element-evict (length (new ∷ l.order)) l.max key new l.order v.room (==-refl key))
      | inr (e, found) ↦ rw found (rw (==-refl key) refl)
    ]

get-put :
    (now later : ℕ) (key id : Str) (l : TtlLru)
    → IsValid l
    → (get later key (put now key id l)).1 ≡ (if ltb (now + l.ttl) later then none else some id)
unfolding get
get-put now later key id l v =
    rw (element-put now key id l v) (elim (Bool-cases (ltb (now + l.ttl) later)) [
      | inl over ↦ rw over refl
      | inr live ↦ rw live refl
    ])

get-remove : (now : ℕ) (key : Str) (l : TtlLru) → IsValid l → (get now key (remove key l)).1 ≡ none
unfolding get remove
get-remove now key l v =
    let gone : element key (remove_element key l.order) ≡ none =
      element-remove_element key key l.order v.distinct ∙ rw (==-refl key) refl in
    rw gone refl

abbrev pub inactive_tenant : Str → CachedTenant
inactive_tenant id = record { id = id; active = false }

abbrev as_inactive : Option Str → Option CachedTenant
as_inactive none = none
as_inactive (some id) = some (inactive_tenant id)

from_none :
    (c : ValidationCache) (p q : TtlLru × Option Str)
    → p.1 ≡ none
    → (from_active c p (from_inactive (record c { active = p.0 }) q)).1 ≡ as_inactive q.1
from_none c (l, some id) q h = ground arith
from_none c (l, none) (m, some id) h = refl
from_none c (l, none) (m, none) h = refl

as_inactive-if :
    (b : Bool) (id : Str)
    → as_inactive (if b then none else some id) ≡ (if b then none else some (inactive_tenant id))
as_inactive-if true id = refl
as_inactive-if false id = refl

told_inactive :
    (at now later : ℕ) (k id : Str) (c : ValidationCache)
    → IsBounded c
    → (get_cached now later k (put_cached at k (inactive_tenant id) c)).1
      ≡ (if ltb (at + c.inactive.ttl) later then none else some (inactive_tenant id))
unfolding get_cached put_cached
told_inactive at now later k id c v =
    from_none (record { active = remove k c.active; inactive = put at k id c.inactive })
      (get now k (remove k c.active)) (get later k (put at k id c.inactive))
      (get-remove now k c.active v.active_valid)
    ∙ ap as_inactive (get-put at later k id c.inactive v.inactive_valid)
    ∙ as_inactive-if (ltb (at + c.inactive.ttl) later) id

-- Whatever the history of a cache with a time to live: a result that is not active, once put, is told
-- until its lifetime is over and not after, where the lifetime is a quarter of the time to live, or a
-- second if a quarter is less, or the time to live itself if that is less than a second.
pub put_cached-told :
    (ttl : ℕ) (xs : List Access) (at now later : ℕ) (k id : Str)
    → (lifetime : ℕ) × Shortened ttl lifetime
      × ((get_cached now later k
            (put_cached at k (inactive_tenant id) (after xs (new_validation_cache ttl)))).1
          ≡ (if ltb (at + lifetime) later then none else some (inactive_tenant id)))
put_cached-told ttl xs at now later k id =
    let c = after xs (new_validation_cache ttl) in
    let bounded =
      after-IsBounded xs (new_validation_cache ttl) (new_validation_cache-IsBounded ttl) in
    let recorded =
      after-IsRecorded ttl xs [] (new_validation_cache ttl) (new_validation_cache-IsRecorded ttl) in
    (
      negative_ttl ttl,
      negative_ttl-Shortened ttl,
      told_inactive at now later k id c bounded
          ∙ ap (λ l. if ltb (at + l) later then none else some (inactive_tenant id))
              recorded.inactive_ttl,
    )
