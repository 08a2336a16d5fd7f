-- ===== src/Tenancy/Resolver/Fresh.antt =====
-- A tenant that a lookup reports active was reported so by the directory, now or within the
-- lifetime of a cache entry.
use superapi.Prelude.{
  ℕ, ◌≤◌, ◌+◌, Str, str, ◌≡◌, refl, ◌∙◌, sym, ap, true, Option, none, some, List, [], ◌∷◌, ◌++◌,
  ==-eq, arith, drop, ◌⊎◌, inl, inr, subst,
}
use superapi.Tenancy.Cache.{
  CachedTenant, ValidationCache, new_validation_cache, get_cached, put_cached,
}
use superapi.Tenancy.Cache.History.{Access, get_access, put_access, after, Put, puts_onto}
use superapi.Tenancy.Cache.Log.{Logged}
use superapi.Tenancy.Cache.Recency.{IsFresh, get_cached-recent}
use superapi.Tenancy.Resolver.{
  Resolver, header, subdomain, is_active, Answer, found, not_found, unreachable,
}
use superapi.Tenancy.Resolver.Lookup.{
  cache_key, tenant, remembered, lookup_tenant, Exchange, look_up_all, on_hit, ask,
}

abbrev first_byte : Str → ℕ
first_byte [] = 0
first_byte (c ∷ s) = c

-- Keys of the two resolvers never meet, and each determines its value.
pub cache_key-injective :
    (r s : Resolver) (v w : Str) → cache_key r v ≡ cache_key s w → (r ≡ s) × (v ≡ w)
unfolding cache_key
cache_key-injective header header v w h = (refl, ap (drop 7) h)
cache_key-injective header subdomain v w h =
    let e : ◌≡◌ {A = ℕ} 104 115 = ap first_byte h in absurd (omega arith)
cache_key-injective subdomain header v w h =
    let e : ◌≡◌ {A = ℕ} 115 104 = ap first_byte h in absurd (omega arith)
cache_key-injective subdomain subdomain v w h = (refl, ap (drop 10) h)

abbrev pub Among : (Exchange → Type 0) → List Exchange → Type 0
Among P [] = ⊥
Among P (x ∷ xs) = P x ⊎ Among P xs

after-append :
    (xs ys : List Access) (c : ValidationCache) → after (xs ++ ys) c ≡ after ys (after xs c)
unfolding after
after-append [] ys c = refl
after-append (get_access now later k ∷ xs) ys c = after-append xs ys (get_cached now later k c).0
after-append (put_access now k t ∷ xs) ys c = after-append xs ys (put_cached now k t c)

puts_onto-append :
    (xs ys : List Access) (log : List Put)
    → puts_onto (xs ++ ys) log ≡ puts_onto ys (puts_onto xs log)
unfolding puts_onto
puts_onto-append [] ys log = refl
puts_onto-append (get_access now later k ∷ xs) ys log = puts_onto-append xs ys log
puts_onto-append (put_access now k t ∷ xs) ys log =
    puts_onto-append xs ys (record { key = k; tenant = t; at = now } ∷ log)

module _ (resolver : Resolver) where
  -- The calls that a lookup makes of its cache.
  abbrev put_remembered : ℕ → Str → Option CachedTenant → List Access
  put_remembered now key none = []
  put_remembered now key (some t) = put_access now key t ∷ []

  abbrev on_miss : Exchange → Option CachedTenant → List Access
  on_miss x (some t) = []
  on_miss x none = put_remembered x.clock.put (cache_key resolver x.value) (remembered x.answer)

  accesses : Exchange → ValidationCache → List Access
  accesses x c =
      let key = cache_key resolver x.value in
      get_access x.clock.first x.clock.second key
      ∷ on_miss x (get_cached x.clock.first x.clock.second key c).1

  ask_traced :
      (now : ℕ) (key : Str) (answer : Answer) (c : ValidationCache)
      → (ask now key answer (some c)).0
        ≡ some (after (put_remembered now key (remembered answer)) c)
  unfolding after remembered
  ask_traced now key (found r) c = refl
  ask_traced now key not_found c = refl
  ask_traced now key (unreachable e) c = refl

  on_hit_traced :
      (x : Exchange) (p : ValidationCache × Option CachedTenant)
      → (on_hit x.clock (cache_key resolver x.value) x.answer p).0
        ≡ some (after (on_miss x p.1) p.0)
  on_hit_traced x (c, some t) = unfold after in refl
  on_hit_traced x (c, none) = ask_traced x.clock.put (cache_key resolver x.value) x.answer c

  lookup_traced :
      (x : Exchange) (c : ValidationCache)
      → (lookup_tenant x.clock resolver x.value x.answer (some c)).0 ≡ some (after (accesses x c) c)
  unfolding lookup_tenant accesses after
  lookup_traced x c =
      on_hit_traced x (get_cached x.clock.first x.clock.second (cache_key resolver x.value) c)

  trace : List Exchange → ValidationCache → List Access
  trace [] c = []
  trace (x ∷ xs) c = let now = accesses x c in now ++ trace xs (after now c)

  look_up_all_traced :
      (xs : List Exchange) (c : ValidationCache)
      → look_up_all resolver xs (some c) ≡ some (after (trace xs c) c)
  unfolding look_up_all trace
  look_up_all_traced [] c = unfold after in refl
  look_up_all_traced (x ∷ xs) c =
      ap (look_up_all resolver xs) (lookup_traced x c)
      ∙ look_up_all_traced xs (after (accesses x c) c)
      ∙ ap some (sym (after-append (accesses x c) (trace xs (after (accesses x c) c)) c))

  -- A put of the log comes from an exchange.
  record IsSource (P : Put → Type 0) (x : Exchange) : Type 0 where
    stored : CachedTenant
    answered : remembered x.answer ≡ some stored
    holds : P (record { key = cache_key resolver x.value; tenant = stored; at = x.clock.put })

  IsSource-put :
      (P : Put → Type 0) (x : Exchange) (o : Option CachedTenant) (log : List Put)
      → remembered x.answer ≡ o
      → Logged P (puts_onto (put_remembered x.clock.put (cache_key resolver x.value) o) log)
      → IsSource P x ⊎ Logged P log
  unfolding puts_onto
  IsSource-put P x none log e h = inr h
  IsSource-put P x (some t) log e (inl now) = inl (record { stored = t; answered = e; holds = now })
  IsSource-put P x (some t) log e (inr before) = inr before

  IsSource-now :
      (P : Put → Type 0) (x : Exchange) (told : Option CachedTenant) (log : List Put)
      → Logged P (puts_onto (on_miss x told) log)
      → IsSource P x ⊎ Logged P log
  IsSource-now P x (some t) log h = inr (unfold puts_onto in h)
  IsSource-now P x none log h = IsSource-put P x (remembered x.answer) log refl h

  IsSource-accesses :
      (P : Put → Type 0) (x : Exchange) (c : ValidationCache) (log : List Put)
      → Logged P (puts_onto (accesses x c) log)
      → IsSource P x ⊎ Logged P log
  unfolding accesses puts_onto
  IsSource-accesses P x c log h = IsSource-now P x _ log h

  sources :
      (P : Put → Type 0) (xs : List Exchange) (c : ValidationCache) (log : List Put)
      → Logged P (puts_onto (trace xs c) log)
      → Among (IsSource P) xs ⊎ Logged P log
  unfolding trace
  sources P [] c log h = inr (unfold puts_onto in h)
  sources P (x ∷ xs) c log h =
      let now = accesses x c in
      let rest = trace xs (after now c) in
      elim (sources P xs (after now c) (puts_onto now log)
        (subst (Logged P) (puts_onto-append now rest log) h)) [
          | inl later ↦ inl (inr later)
          | inr before ↦ elim (IsSource-accesses P x c log before) [
            | inl here ↦ inl (inl here)
            | inr earlier ↦ inr earlier
          ]
        ]

-- The answer is a record of this id whose status is active.
abbrev pub Says : Answer → Str → Type 0
Says (found r) id = (r.id ≡ id) × (r.status ≡ str "active")
Says not_found id = ⊥
Says (unreachable e) id = ⊥

-- The directory was asked for this value and said that this tenant is active, no longer than the
-- time to live before the clock reading.
pub record SaidInTime (ttl now : ℕ) (value id : Str) (x : Exchange) : Type 0 where
  pub value_same : x.value ≡ value
  pub says : Says x.answer id
  pub in_time : now ≤ x.clock.put + ttl

remembered-Says :
    (a : Answer) (t : CachedTenant) (id : Str)
    → remembered a ≡ some t
    → t.id ≡ id
    → t.active ≡ true
    → Says a id
unfolding remembered is_active
remembered-Says (found r) t id e same on =
    (ground arith, ==-eq r.status (str "active") (ground arith))
remembered-Says not_found t id e same on = ground arith
remembered-Says (unreachable x) t id e same on = cc

module _ (resolver : Resolver) (ttl : ℕ) where
  source-SaidInTime :
      (now later : ℕ) (value id : Str) (x : Exchange)
      → IsSource resolver
          (IsFresh ttl now later (cache_key resolver value) (record { id = id; active = true }))
          x
      → SaidInTime ttl now value id x
  source-SaidInTime now later value id x s = record {
    value_same = (cache_key-injective resolver resolver x.value value s.holds.key).1;
    says = remembered-Says x.answer s.stored id s.answered s.holds.id s.holds.state;
    in_time = s.holds.in_time;
  }

  Among-map :
      (P Q : Exchange → Type 0) (f : (x : Exchange) → P x → Q x) (xs : List Exchange)
      → Among P xs
      → Among Q xs
  Among-map P Q f [] h = absurd h
  Among-map P Q f (x ∷ xs) (inl h) = inl (f x h)
  Among-map P Q f (x ∷ xs) (inr h) = inr (Among-map P Q f xs h)

  ask-Says :
      (now : ℕ) (key id : Str) (a : Answer) (cache : Option ValidationCache)
      → (ask now key a cache).1 ≡ tenant id true
      → Says a id
  unfolding is_active
  ask-Says now key id (found r) none h =
      (ground arith, ==-eq r.status (str "active") (ground arith))
  ask-Says now key id (found r) (some c) h =
      (ground arith, ==-eq r.status (str "active") (ground arith))
  ask-Says now key id not_found none h = cc
  ask-Says now key id not_found (some c) h = cc
  ask-Says now key id (unreachable e) cache h = cc

  hit_or_asked :
      (x : Exchange) (key id : Str) (p : ValidationCache × Option CachedTenant)
      → (on_hit x.clock key x.answer p).1 ≡ tenant id true
      → (p.1 ≡ some (record { id = id; active = true })) ⊎ Says x.answer id
  hit_or_asked x key id (c, some t) h = inl (ground arith)
  hit_or_asked x key id (c, none) h = inr (ask-Says x.clock.put key id x.answer (some c) h)

  said_before :
      (xs : List Exchange) (x : Exchange) (id : Str)
      → (get_cached x.clock.first x.clock.second
          (cache_key resolver x.value)
          (after (trace resolver xs (new_validation_cache ttl)) (new_validation_cache ttl))).1
        ≡ some (record { id = id; active = true })
      → Among (SaidInTime ttl x.clock.first x.value id) xs
  said_before xs x id h =
      let new = new_validation_cache ttl in
      let t : CachedTenant = record { id = id; active = true } in
      let key = cache_key resolver x.value in
      let fresh = IsFresh ttl x.clock.first x.clock.second key t in
      let logged =
        get_cached-recent ttl (trace resolver xs new) x.clock.first x.clock.second key t h in
      elim (sources resolver fresh xs new [] logged) [
        | inl some_source ↦
            Among-map (IsSource resolver fresh) (SaidInTime ttl x.clock.first x.value id)
              (source-SaidInTime x.clock.first x.clock.second x.value id) xs some_source
        | inr nothing ↦ absurd nothing
      ]

  -- A lookup that reports a tenant active, after any calls of a cache that was new: the directory
  -- says so now, or was asked for the same value before and said so no longer ago than the time to
  -- live of the cache, the clock being read when the cache is asked.
  pub lookup_tenant-recent :
      (xs : List Exchange) (x : Exchange) (id : Str)
      → (lookup_tenant x.clock resolver x.value x.answer
          (look_up_all resolver xs (some (new_validation_cache ttl)))).1
        ≡ tenant id true
      → Says x.answer id ⊎ Among (SaidInTime ttl x.clock.first x.value id) xs
  lookup_tenant-recent xs x id h =
      let new = new_validation_cache ttl in
      let c = after (trace resolver xs new) new in
      let key = cache_key resolver x.value in
      let reported : (on_hit x.clock key x.answer (get_cached x.clock.first x.clock.second key c)).1
          ≡ tenant id true =
        unfold lookup_tenant in (rw (look_up_all_traced resolver xs new) at h) in
      elim (hit_or_asked x key id (get_cached x.clock.first x.clock.second key c) reported) [
        | inl hit ↦ inr (said_before xs x id hit)
        | inr says ↦ inl says
      ]
