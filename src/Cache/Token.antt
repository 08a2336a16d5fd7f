-- ===== src/Cache/Token.antt =====
-- internal/core/cache/manager.go: the token of a list of tags, and the versions in Redis. Redis is
-- an interface here: a store of numbers by key, which MGET reads and INCR adds to. The clock is an argument.
use superapi.Prelude.{
  ℕ, suc, ◌+◌, Str, str, ◌≡◌, not, Option, none, some, List, [], ◌∷◌, ◌++◌, ◌==◌, Dict, lookup,
  insert, mem, trim_space, sort_strings, ltb, if◌then◌else◌, map,
}
use superapi.Cache.Decimal.{format_int}

pub record Versions : Type 1 where
  pub Store : Type 0
  -- what a key holds, 0 where it holds no positive number
  pub version : Str → Store → ℕ
  pub incr : Str → Store → Store
  -- INCR adds one to the number of its key, and touches no other.
  pub version-incr :
      (key other : Str) (s : Store)
      → version other (incr key s)
        ≡ (if key == other then suc (version other s) else version other s)

-- Trimmed, without blanks and repeats, in the order of the list.
unfoldable pub distinct_from : List Str → List Str → List Str
unfolding trim_space mem ◌==◌
distinct_from seen [] = []
distinct_from seen (tag ∷ tags) =
    let trimmed = trim_space tag in
    let passed_over = distinct_from seen tags in
    let taken = distinct_from (trimmed ∷ seen) tags in
    if trimmed == [] then passed_over else if mem trimmed seen then passed_over else trimmed ∷ taken

unfoldable pub normalize_resolved_tags : List Str → List Str
unfolding distinct_from sort_strings
normalize_resolved_tags tags = sort_strings (distinct_from [] tags)

-- tagVersionKey
unfoldable pub tag_version_key : Str → Str → Str
tag_version_key env tag = str "cver:" ++ env ++ str ":" ++ tag

-- strings.Join
unfoldable pub join : Str → List Str → Str
join sep [] = []
join sep (s ∷ []) = s
join sep (s ∷ t ∷ rest) = s ++ (sep ++ join sep (t ∷ rest))

pub record TagTokenCacheEntry : Type 0 where
  pub token : Str
  pub expires_at : ℕ

module _ (redis : Versions) where
  open redis use {Store}

  pub record Manager : Type 0 where
    pub env : Str
    pub tag_token_ttl : ℕ
    pub tag_token_cache : Dict TagTokenCacheEntry
    pub store : Store

  -- The pipeline.
  unfoldable pub incr_all : List Str → Store → Store
  incr_all [] s = s
  incr_all (key ∷ keys) s = incr_all keys (redis.incr key s)

  abbrev pub part : Str → Store → Str → Str
  part env s tag = tag ++ (str "=" ++ format_int (redis.version (tag_version_key env tag) s))

  -- The token that the versions of the store give.
  unfoldable pub fresh_token : Str → Store → List Str → Str
  unfolding join format_int tag_version_key
  fresh_token env s tags = join (str ",") (map (part env s) tags)

  abbrev pub live_token : ℕ → Option TagTokenCacheEntry → Option Str
  live_token now none = none
  live_token now (some entry) = if ltb entry.expires_at now then none else some entry.token

  unfoldable pub tag_token_from_cache : ℕ → Str → Manager → Option Str
  unfolding lookup trim_space ◌==◌
  tag_token_from_cache now key m =
      if not (ltb 0 m.tag_token_ttl)
      then none
      else if trim_space key == []
      then none
      else live_token now (lookup key m.tag_token_cache)

  abbrev pub with_cache : Manager → Dict TagTokenCacheEntry → Manager
  with_cache m cache = record {
    env = m.env;
    tag_token_ttl = m.tag_token_ttl;
    tag_token_cache = cache;
    store = m.store;
  }

  unfoldable pub store_tag_token : ℕ → Str → Str → Manager → Manager
  unfolding insert trim_space ◌==◌
  store_tag_token now key token m =
      if not (ltb 0 m.tag_token_ttl)
      then m
      else if trim_space key == []
      then m
      else with_cache m (
          insert key (record { token = token; expires_at = now + m.tag_token_ttl })
            m.tag_token_cache)

  abbrev pub or_fresh : ℕ → Str → List Str → Manager → Option Str → Manager × Str
  or_fresh now key tags m (some token) = (m, token)
  or_fresh now key tags m none =
      let token = fresh_token m.env m.store tags in (store_tag_token now key token m, token)

  -- tagVersionTokenNormalized, where MGET answers. The separator of the cache's keys is U+001F. An
  -- entry that is too old is dropped when it is stored anew.
  abbrev pub token_of : ℕ → List Str → Manager → Manager × Str
  token_of now [] m = (m, [])
  token_of now (tag ∷ tags) m =
      let key = join (31 ∷ []) (tag ∷ tags) in
      or_fresh now key (tag ∷ tags) m (tag_token_from_cache now key m)

  unfoldable pub tag_version_token : ℕ → List Str → Manager → Manager × Str
  unfolding join tag_token_from_cache store_tag_token fresh_token normalize_resolved_tags
  tag_version_token now tags m = token_of now (normalize_resolved_tags tags) m

  abbrev pub bumped : List Str → Manager → Manager
  bumped [] m = m
  bumped (tag ∷ tags) m = record {
    env = m.env;
    tag_token_ttl = m.tag_token_ttl;
    tag_token_cache = [];
    store = incr_all (map (tag_version_key m.env) (tag ∷ tags)) m.store;
  }

  -- BumpTags, where the pipeline is run.
  unfoldable pub bump_tags : List Str → Manager → Manager
  unfolding normalize_resolved_tags tag_version_key incr_all
  bump_tags tags m = bumped (normalize_resolved_tags tags) m
