-- ===== src/Tenancy/Cache/Retention.antt =====
-- Requests for other tenants that are unknown or inactive do not push an active tenant out.
use superapi.Prelude.{
  ℕ, Str, ◌≡◌, refl, ◌∙◌, true, false, Option, none, some, List, [], ◌∷◌, ◌==◌, All, arith,
  Option-cases, inl, inr,
}
use superapi.Tenancy.Cache.{
  LruEntry, TtlLru, element, get, CachedTenant, ValidationCache, new_validation_cache, get_cached,
  put_cached, from_active, from_inactive,
}
use superapi.Tenancy.Cache.History.{Access, get_access, put_access, after}
use superapi.Tenancy.Cache.Lru.{element-remove_element}
use superapi.Tenancy.Cache.Segment.{IsValid, element-key}
use superapi.Tenancy.Cache.Bounds.{
  IsBounded, get_cached-IsBounded, put_cached-IsBounded, after-IsBounded,
  new_validation_cache-IsBounded,
}
use superapi.Tenancy.Cache.Recency.{told_from}

-- A call of the cache for another key, a put only of a result that is not active.
abbrev pub IsOther : Str → Access → Type 0
IsOther k (get_access now later j) = (j == k) ≡ false
IsOther k (put_access now j t) = ((j == k) ≡ false) × (t.active ≡ false)

abbrev entry : Str → ValidationCache → Option LruEntry
entry k c = element k c.active.order

entry-get :
    (now : ℕ) (j k : Str) (l : TtlLru)
    → IsValid l
    → (j == k) ≡ false
    → element k (get now j l).0.order ≡ element k l.order
unfolding get element
entry-get now j k l v ne = elim (Option-cases (element j l.order)) [
  | inl missing ↦ rw missing
  | inr (e, found) ↦
      rw found (
        ground
          (arith, element-remove_element j k l.order v.distinct, element-key j l.order e found))
]

entry-from_active :
    (k : Str) (c : ValidationCache) (p q : TtlLru × Option Str)
    → entry k (from_active c p (from_inactive (record c { active = p.0 }) q)).0
      ≡ element k p.0.order
entry-from_active k c (l, some id) q = refl
entry-from_active k c (l, none) (m, some id) = refl
entry-from_active k c (l, none) (m, none) = refl

entry-get_cached :
    (now later : ℕ) (j k : Str) (c : ValidationCache)
    → IsBounded c
    → (j == k) ≡ false
    → entry k (get_cached now later j c).0 ≡ entry k c
unfolding get_cached
entry-get_cached now later j k c v ne =
    entry-from_active k c (get now j c.active) (get later j c.inactive)
    ∙ entry-get now j k c.active v.active_valid ne

entry-put_cached :
    (now : ℕ) (j k : Str) (t : CachedTenant) (c : ValidationCache)
    → IsBounded c
    → (j == k) ≡ false
    → t.active ≡ false
    → entry k (put_cached now j t c) ≡ entry k c
unfolding put_cached
entry-put_cached now j k t c v ne off =
    rw off (element-remove_element j k c.active.order v.active_valid.distinct ∙ rw ne refl)

entry-after :
    (k : Str) (xs : List Access) (c : ValidationCache)
    → IsBounded c
    → All (IsOther k) xs
    → entry k (after xs c) ≡ entry k c
unfolding after
entry-after k [] c v h = refl
entry-after k (get_access now later j ∷ xs) c v h =
    entry-after k xs (get_cached now later j c).0 (get_cached-IsBounded now later j c v) h.1
    ∙ entry-get_cached now later j k c v h.0
entry-after k (put_access now j t ∷ xs) c v h =
    entry-after k xs (put_cached now j t c) (put_cached-IsBounded now j t c v) h.1
    ∙ entry-put_cached now j k t c v h.0.0 h.0.1

-- What a segment tells of a key depends on its entry only.
told-get :
    (now : ℕ) (k : Str) (l m : TtlLru)
    → element k l.order ≡ element k m.order
    → (get now k l).1 ≡ (get now k m).1
unfolding get
told-get now k l m h = elim (Option-cases (element k m.order)) [
  | inl missing ↦ rw (h, missing)
  | inr (e, found) ↦ rw (h, found) (ground arith)
]

told-get_cached :
    (now later : ℕ) (k id : Str) (c : ValidationCache)
    → (get now k c.active).1 ≡ some id
    → (get_cached now later k c).1 ≡ some (record { id = id; active = true })
unfolding get_cached
told-get_cached now later k id c h = from_told (get now k c.active) _ h
  where
    from_told :
        (p q : TtlLru × Option Str)
        → p.1 ≡ some id
        → (from_active c p (from_inactive (record c { active = p.0 }) q)).1
          ≡ some (record { id = id; active = true })
    from_told (l, some x) q e = ground arith
    from_told (l, none) q e = cc

active-get_cached :
    (now later : ℕ) (k id : Str) (c : ValidationCache)
    → (get_cached now later k c).1 ≡ some (record { id = id; active = true })
    → (get now k c.active).1 ≡ some id
unfolding get_cached
active-get_cached now later k id c h =
    elim (told_from c (get now k c.active) (get later k c.inactive) _ h) [
      | inl (told, state) ↦ told
      | inr (told, state) ↦ cc
    ]

-- An active tenant that the cache tells at a moment is still told at that moment, with the same id,
-- after any further calls of the cache for other keys that put no active result: a flood of unknown
-- or inactive tenants evicts no active one.
pub flood_keeps_active :
    (ttl : ℕ) (before flood : List Access) (now later : ℕ) (k id : Str)
    → All (IsOther k) flood
    → (get_cached now later k (after before (new_validation_cache ttl))).1
      ≡ some (record { id = id; active = true })
    → (get_cached now later k (after flood (after before (new_validation_cache ttl)))).1
      ≡ some (record { id = id; active = true })
flood_keeps_active ttl before flood now later k id others h =
    let c = after before (new_validation_cache ttl) in
    let v =
      after-IsBounded before (new_validation_cache ttl) (new_validation_cache-IsBounded ttl) in
    told-get_cached now later k id (after flood c) (
      told-get now k (after flood c).active c.active (entry-after k flood c v others)
      ∙ active-get_cached now later k id c h)
