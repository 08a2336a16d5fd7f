-- ===== src/Cache/Read/Stable.antt =====
-- The token of the tags of a request, and with it its key, stay when a response is stored.
use superapi.Prelude.{
  ℕ, ◌+◌, Str, str, ◌≡◌, ◌⊎◌, refl, ap, sym, subst, ◌∙◌, true, false, Option, none, some, List, [],
  ◌∷◌, ◌++◌, ◌==◌, ==-refl, lookup, insert, map, ltb, trim_space, arith, inl, inr, Bool-cases,
}
use superapi.Cache.Token.{
  token_of, tag_token_from_cache, store_tag_token, fresh_token, part, join, tag_version_key,
  or_fresh, with_cache, TagTokenCacheEntry,
}
use superapi.Cache.Decimal.{format_int}
use superapi.Cache.Invalidation.{no_cached}
use superapi.Cache.Store.{Redis, Cache, with_store}

-- Storing a response changes no version, so the token of the tags stays.
module _ (redis : Redis) where
  open redis use {versions, held, put, held-put, version-put}

  -- A cached response and a version never share a key.
  cache_key-not_version :
      (rest env tag : Str) → str "cache:" ++ rest == tag_version_key env tag ≡ false
  unfolding tag_version_key ◌==◌
  cache_key-not_version rest env tag = refl

  parts-put :
      (now ttl : ℕ) (rest value env : Str) (s : versions.Store) (tags : List Str)
      → map (part versions env (put now (str "cache:" ++ rest) value ttl s)) tags
        ≡ map (part versions env s) tags
  parts-put now ttl rest value env s [] = refl
  parts-put now ttl rest value env s (t ∷ tags) =
      let after = put now (str "cache:" ++ rest) value ttl s in
      let same =
        version-put now ttl (str "cache:" ++ rest) value (tag_version_key env t) s
          (cache_key-not_version rest env t) in
      ap (λ (n : ℕ). (t ++ (str "=" ++ format_int n)) ∷ map (part versions env after) tags) same
      ∙ ap (λ ps. part versions env s t ∷ ps) (parts-put now ttl rest value env s tags)

  pub fresh_token-put :
      (now ttl : ℕ) (rest value env : Str) (s : versions.Store) (tags : List Str)
      → fresh_token versions env (put now (str "cache:" ++ rest) value ttl s) tags
        ≡ fresh_token versions env s tags
  unfolding fresh_token
  fresh_token-put now ttl rest value env s tags =
      ap (join (str ",")) (parts-put now ttl rest value env s tags)

  pub token_of-store :
      (now : ℕ) (tags : List Str) (m : Cache redis)
      → ((token_of versions now tags m).0.store ≡ m.store)
        × ((token_of versions now tags m).0.env ≡ m.env)
  unfolding store_tag_token
  token_of-store now [] m = (refl, refl)
  token_of-store now (tag ∷ tags) m = ground arith

  abbrev entry_for : Str → ℕ → TagTokenCacheEntry
  entry_for token until = record { token = token; expires_at = until }

  -- Where a token is stored at all, an empty cache then holds it alone.
  store_tag_token-alone :
      (now : ℕ) (key token : Str) (m : Cache redis)
      → m.tag_token_cache ≡ []
      → ltb 0 m.tag_token_ttl ≡ true
      → trim_space key == [] ≡ false
      → store_tag_token versions now key token m
        ≡ with_cache versions m ((key, entry_for token (now + m.tag_token_ttl)) ∷ [])
  unfolding store_tag_token
  store_tag_token-alone now key token m h on given =
      rw (on, given)
        (ap (λ c. with_cache versions m (insert key (entry_for token (now + m.tag_token_ttl)) c)) h
          ∙ (unfold insert in refl))

  store_tag_token-ttl :
      (now : ℕ) (key token : Str) (m : Cache redis)
      → (store_tag_token versions now key token m).tag_token_ttl ≡ m.tag_token_ttl
  unfolding store_tag_token
  store_tag_token-ttl now key token m = ground arith

  store_tag_token-env :
      (now : ℕ) (key token : Str) (m : Cache redis)
      → (store_tag_token versions now key token m).env ≡ m.env
  unfolding store_tag_token
  store_tag_token-env now key token m = ground arith

  -- A cache that is off, or a blank key, gives no token.
  tag_token_from_cache-none :
      (now : ℕ) (key : Str) (m : Cache redis)
      → (ltb 0 m.tag_token_ttl ≡ false) ⊎ (trim_space key == [] ≡ true)
      → tag_token_from_cache versions now key m ≡ none
  unfolding tag_token_from_cache
  tag_token_from_cache-none now key m (inl off) = rw off refl
  tag_token_from_cache-none now key m (inr blank) = elim (Bool-cases (ltb 0 m.tag_token_ttl)) [
    | inl on ↦ rw (on, blank) refl
    | inr off ↦ rw off refl
  ]

  alone-token :
      (later until : ℕ) (key token : Str) (m : Cache redis)
      → trim_space key == [] ≡ false
      → (tag_token_from_cache versions later key
            (with_cache versions m ((key, entry_for token until) ∷ []))
          ≡ none)
        ⊎ (tag_token_from_cache versions later key
              (with_cache versions m ((key, entry_for token until) ∷ []))
            ≡ some token)
  unfolding tag_token_from_cache lookup
  alone-token later until key token m given = elim (Bool-cases (ltb 0 m.tag_token_ttl)) [
    | inr off ↦ inl (rw off refl)
    | inl on ↦ elim (Bool-cases (ltb until later)) [
      | inl late ↦ inl (rw (on, given, ==-refl key, late) refl)
      | inr live ↦ inr (rw (on, given, ==-refl key, live) refl)
    ]
  ]

  -- The token that was just stored is found again, or nothing is.
  kept_token :
      (now later : ℕ) (key token : Str) (m : Cache redis) (s : versions.Store)
      → m.tag_token_cache ≡ []
      → (tag_token_from_cache versions later key
            (with_store redis (store_tag_token versions now key token m) s)
          ≡ none)
        ⊎ (tag_token_from_cache versions later key
              (with_store redis (store_tag_token versions now key token m) s)
            ≡ some token)
  kept_token now later key token m s h = elim (Bool-cases (ltb 0 m.tag_token_ttl)) [
    | inr off ↦ inl (
        tag_token_from_cache-none later key
          (with_store redis (store_tag_token versions now key token m) s)
          (inl (ap (ltb 0) (store_tag_token-ttl now key token m) ∙ off)))
    | inl on ↦ elim (Bool-cases (trim_space key == [])) [
      | inl blank ↦ inl (
          tag_token_from_cache-none later key
            (with_store redis (store_tag_token versions now key token m) s) (inr blank))
      | inr given ↦
          subst
            (λ c.
              (tag_token_from_cache versions later key (with_store redis c s) ≡ none)
              ⊎ (tag_token_from_cache versions later key (with_store redis c s) ≡ some token))
            (sym (store_tag_token-alone now key token m h on given))
            (alone-token later (now + m.tag_token_ttl) key token (with_store redis m s) given)
    ]
  ]

  again :
      (later : ℕ) (key token : Str) (tags : List Str) (m : Cache redis) (o : Option Str)
      → (o ≡ none) ⊎ (o ≡ some token)
      → fresh_token versions m.env m.store tags ≡ token
      → (or_fresh versions later key tags m o).1 ≡ token
  again later key token tags m none e same = same
  again later key token tags m (some t) e same = ground arith

  pub token_of-again :
      (now later : ℕ) (tags : List Str) (m : Cache redis) (s : versions.Store)
      → m.tag_token_cache ≡ []
      → fresh_token versions m.env s tags ≡ fresh_token versions m.env m.store tags
      → (token_of versions later tags (with_store redis (token_of versions now tags m).0 s)).1
        ≡ (token_of versions now tags m).1
  token_of-again now later [] m s h same = refl
  token_of-again now later (tag ∷ tags) m s h same =
      let key = join (31 ∷ []) (tag ∷ tags) in
      let token = fresh_token versions m.env m.store (tag ∷ tags) in
      let first : token_of versions now (tag ∷ tags) m
          ≡ (store_tag_token versions now key token m, token) =
        ap (or_fresh versions now key (tag ∷ tags) m) (no_cached versions now key m h) in
      let next = with_store redis (store_tag_token versions now key token m) s in
      subst (λ p. (token_of versions later (tag ∷ tags) (with_store redis p.0 s)).1 ≡ p.1)
        (sym first)
        (again later key token (tag ∷ tags) next (tag_token_from_cache versions later key next)
          (kept_token now later key token m s h)
          (ap (λ e. fresh_token versions e s (tag ∷ tags)) (store_tag_token-env now key token m)
            ∙ same))
