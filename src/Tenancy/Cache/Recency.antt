-- ===== src/Tenancy/Cache/Recency.antt =====
-- What is in the cache came from a put, and is told for no longer than the lifetime of that put.
use superapi.Prelude.{
  ℕ, ◌+◌, ◌≤◌, Str, ◌≡◌, refl, ◌∙◌, Bool, true, false, Option, none, some, List, [], ◌∷◌,
  if◌then◌else◌, arith, Bool-cases, inl, inr, ◌⊎◌,
}
use superapi.Tenancy.Cache.{
  TtlLru, remove_element, get, put, remove, negative_ttl, CachedTenant, ValidationCache,
  new_validation_cache, get_cached, put_cached, from_active, from_inactive,
}
use superapi.Tenancy.Cache.History.{Access, get_access, put_access, after, Put, puts_onto}
use superapi.Tenancy.Cache.Log.{
  Logged, FromLog, FromLog-weaken, FromLog-remove_element, FromLog-element, get-FromLog, get-live,
  put-FromLog, Logged-map, IsRecorded, new_validation_cache-IsRecorded, ttl-get, ttl-put,
}

module _ (ttl : ℕ) (log : List Put) where
  from_active-IsRecorded :
      (c : ValidationCache) (p q : TtlLru × Option Str)
      → IsRecorded ttl log (record c { active = p.0 })
      → IsRecorded ttl log (record { active = p.0; inactive = q.0 })
      → IsRecorded ttl log (from_active c p (from_inactive (record c { active = p.0 }) q)).0
  from_active-IsRecorded c (l, some id) q h k = h
  from_active-IsRecorded c (l, none) (m, some id) h k = k
  from_active-IsRecorded c (l, none) (m, none) h k = k

  get_cached-IsRecorded :
      (now later : ℕ) (k : Str) (c : ValidationCache)
      → IsRecorded ttl log c
      → IsRecorded ttl log (get_cached now later k c).0
  unfolding get_cached
  get_cached-IsRecorded now later k c r =
      let active = get-FromLog ttl true now k log c.active r.active_log in
      let active_ttl = ttl-get now k c.active ∙ r.active_ttl in
      from_active-IsRecorded c (get now k c.active) (get later k c.inactive)
        (record {
          active_log = active;
          inactive_log = r.inactive_log;
          active_ttl = active_ttl;
          inactive_ttl = r.inactive_ttl;
        })
        (record {
          active_log = active;
          inactive_log = get-FromLog (negative_ttl ttl) false later k log c.inactive r.inactive_log;
          active_ttl = active_ttl;
          inactive_ttl = ttl-get later k c.inactive ∙ r.inactive_ttl;
        })

  abbrev put_of : ℕ → Str → Str → Bool → Put
  put_of now k id active = record {
    key = k;
    tenant = record { id = id; active = active };
    at = now;
  }

  put_active-IsRecorded :
      (now : ℕ) (k id : Str) (c : ValidationCache)
      → IsRecorded ttl log c
      → IsRecorded ttl
          (put_of now k id true ∷ log)
          (record { active = put now k id c.active; inactive = remove k c.inactive })
  unfolding remove
  put_active-IsRecorded now k id c r =
      let p = put_of now k id true in
      record {
        active_log =
            put-FromLog ttl true now k id log c.active r.active_ttl r.active_log p refl refl refl
              refl;
        inactive_log =
            FromLog-weaken (negative_ttl ttl) false p log (remove_element k c.inactive.order) (
              FromLog-remove_element (negative_ttl ttl) false k log c.inactive.order
                r.inactive_log);
        active_ttl = ttl-put now k id c.active ∙ r.active_ttl;
        inactive_ttl = r.inactive_ttl;
      }

  put_inactive-IsRecorded :
      (now : ℕ) (k id : Str) (c : ValidationCache)
      → IsRecorded ttl log c
      → IsRecorded ttl
          (put_of now k id false ∷ log)
          (record { active = remove k c.active; inactive = put now k id c.inactive })
  unfolding remove
  put_inactive-IsRecorded now k id c r =
      let p = put_of now k id false in
      record {
        active_log =
            FromLog-weaken ttl true p log (remove_element k c.active.order)
              (FromLog-remove_element ttl true k log c.active.order r.active_log);
        inactive_log =
            put-FromLog (negative_ttl ttl) false now k id log c.inactive r.inactive_ttl
              r.inactive_log p refl refl refl refl;
        active_ttl = r.active_ttl;
        inactive_ttl = ttl-put now k id c.inactive ∙ r.inactive_ttl;
      }

  put_cached-IsRecorded :
      (now : ℕ) (k : Str) (t : CachedTenant) (c : ValidationCache)
      → IsRecorded ttl log c
      → IsRecorded ttl (record { key = k; tenant = t; at = now } ∷ log) (put_cached now k t c)
  unfolding put_cached
  put_cached-IsRecorded now k t c r = elim (Bool-cases t.active) [
    | inl is_active ↦ rw is_active (put_active-IsRecorded now k t.id c r)
    | inr not_active ↦ rw not_active (put_inactive-IsRecorded now k t.id c r)
  ]

pub after-IsRecorded :
    (ttl : ℕ) (xs : List Access) (log : List Put) (c : ValidationCache)
    → IsRecorded ttl log c
    → IsRecorded ttl (puts_onto xs log) (after xs c)
unfolding after puts_onto
after-IsRecorded ttl [] log c r = r
after-IsRecorded ttl (get_access now later k ∷ xs) log c r =
    after-IsRecorded ttl xs log (get_cached now later k c).0
      (get_cached-IsRecorded ttl log now later k c r)
after-IsRecorded ttl (put_access now k t ∷ xs) log c r =
    after-IsRecorded ttl xs (record { key = k; tenant = t; at = now } ∷ log) (put_cached now k t c)
      (put_cached-IsRecorded ttl log now k t c r)

-- A put of this key and this result whose lifetime has not passed when the clock is read: at the
-- first reading for an active tenant, at the second for another.
pub record IsFresh (ttl now later : ℕ) (k : Str) (t : CachedTenant) (p : Put) : Type 0 where
  pub key : p.key ≡ k
  pub id : p.tenant.id ≡ t.id
  pub state : p.tenant.active ≡ t.active
  pub in_time : if t.active then now ≤ p.at + ttl else later ≤ p.at + negative_ttl ttl

live-IsFresh :
    (ttl life clock now later : ℕ) (active : Bool) (k id : Str) (log : List Put) (l : TtlLru)
    → FromLog life active log l.order
    → (get clock k l).1 ≡ some id
    → ((p : Put)
        → clock ≤ p.at + life
        → if active then now ≤ p.at + ttl else later ≤ p.at + negative_ttl ttl)
    → Logged (IsFresh ttl now later k (record { id = id; active = active })) log
live-IsFresh ttl life clock now later active k id log l h told in_time =
    let (e, found, value, live) = get-live life active clock k id l told in
    let (logged, key) = FromLog-element life active k log l.order e h found in
    Logged-map _ _
      (λ p q. record {
        key = q.key ∙ key;
        id = q.value ∙ value;
        state = q.state;
        in_time = in_time p (omega (arith, q.deadline));
      })
      log logged

pub told_from :
    (c : ValidationCache) (p q : TtlLru × Option Str) (t : CachedTenant)
    → (from_active c p (from_inactive (record c { active = p.0 }) q)).1 ≡ some t
    → ((p.1 ≡ some t.id) × (t.active ≡ true)) ⊎ ((q.1 ≡ some t.id) × (t.active ≡ false))
told_from c (l, some id) q t h = ground arith
told_from c (l, none) (m, some id) t h = ground arith
told_from c (l, none) (m, none) t h = cc

-- Whatever the history of a cache, a result that it tells for a key is that of an earlier put of
-- this key, no longer ago than the lifetime of such a result: the time to live for an active tenant,
-- and the negative one for another.
pub get_cached-recent :
    (ttl : ℕ) (xs : List Access) (now later : ℕ) (k : Str) (t : CachedTenant)
    → (get_cached now later k (after xs (new_validation_cache ttl))).1 ≡ some t
    → Logged (IsFresh ttl now later k t) (puts_onto xs [])
unfolding get_cached
get_cached-recent ttl xs now later k t h =
    let c = after xs (new_validation_cache ttl) in
    let r =
      after-IsRecorded ttl xs [] (new_validation_cache ttl) (new_validation_cache-IsRecorded ttl) in
    elim (told_from c (get now k c.active) (get later k c.inactive) t h) [
      | inl (told, state) ↦ rw state (
          live-IsFresh ttl ttl now now later true k t.id (puts_onto xs []) c.active r.active_log
            told (λ p h. h))
      | inr (told, state) ↦ rw state (
          live-IsFresh ttl (negative_ttl ttl) later now later false k t.id (puts_onto xs [])
            c.inactive r.inactive_log told (λ p h. h))
    ]
