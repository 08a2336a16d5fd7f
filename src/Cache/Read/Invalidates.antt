-- ===== src/Cache/Read/Invalidates.antt =====
-- CacheInvalidate and the keys of CacheRead: a write makes the keys of the reads of its tags new.
use superapi.Prelude.{
  ℕ, ◌≤◌, Str, ◌≡◌, ◌≢◌, refl, ap, sym, ◌∙◌, Bool, true, false, not, ◌||◌, Option, none, some, List,
  [], ◌∷◌, ◌++◌, mem, ltb, leb, if◌then◌else◌, append_cancel, arith, inr, drop,
}
use superapi.Cache.Token.{token_of, bump_tags, bumped, normalize_resolved_tags, fresh_token}
use superapi.Cache.Invalidation.{bumped-token, token_of-fresh}
use superapi.Cache.Key.{
  Request, ReadKeyTemplate, route_part_of, canonical, build_read_key_with_template,
}
use superapi.Cache.Key.Tagged.{canonical-token}
use superapi.Cache.Tags.{CacheTagSpec, PreparedTagSpec, normalize_tag_specs, resolve_tag_names}
use superapi.Cache.Store.{Redis, Cache, build_read_key, with_tags, keyed}
use superapi.Cache.Writer.{Call, recorded_status}
use superapi.Cache.Read.{Handler, Served, served, wrote, cache_invalidate, invalidated}
use superapi.Cache.Read.Fills.{no_faults}
use superapi.Cache.Read.Replay.{token_or_fault-none}
use superapi.Cache.Read.Stable.{token_of-store}

module _ (redis : Redis) where
  open redis use {versions}

  abbrev version_of : Str → Cache redis → ℕ
  version_of key m = versions.version key m.store

  -- The cache after tags that are resolved are bumped.
  bumped_after :
      (calls : List Call) (m : Cache redis) (written : List Str)
      → (invalidated redis false calls m (inr written)).cache ≡ bump_tags versions written m
  unfolding bump_tags
  bumped_after calls m [] = refl
  bumped_after calls m (tag ∷ tags) = refl

  bumped-env : (tags : List Str) (m : Cache redis) → (bumped versions tags m).env ≡ m.env
  bumped-env [] m = refl
  bumped-env (tag ∷ tags) m = refl

  abbrev is_success : ℕ → Bool
  is_success status = not (ltb status 200 || leb 300 status)

  successful : (b : Bool) (x y : Served redis) → not b ≡ true → (if b then x else y) ≡ y
  successful b x y h = ground arith

  cache_invalidate-bumps :
      (specs : List CacheTagSpec) (next : Handler) (w : Request) (written : List Str)
      (m : Cache redis)
      → is_success (recorded_status 200 (next w)) ≡ true
      → resolve_tag_names w (normalize_tag_specs specs) ≡ inr written
      → (cache_invalidate redis no_faults specs next w m).cache ≡ bump_tags versions written m
  unfolding cache_invalidate
  cache_invalidate-bumps specs next w written m ok resolved =
      ap (λ s. s.cache)
        (successful _ (served redis (wrote (next w)) m [])
          (invalidated redis false (next w) m (resolve_tag_names w (normalize_tag_specs specs))) ok)
      ∙ ap (λ o. (invalidated redis false (next w) m o).cache) resolved
      ∙ bumped_after (next w) m written

  abbrev key_or : Str → Option (Cache redis × Str) → Str
  key_or k none = k
  key_or k (some (m, key)) = key

  module _ (hash : Str → Str) (route : Str) (t : ReadKeyTemplate) (r : Request) where
    abbrev key_under : Str → Str → Str
    key_under env token = build_read_key_with_template hash env route t token r

    abbrev canonical_of : Str → Str
    canonical_of token = canonical hash route t token r

    build_read_key-at :
        (specs : List PreparedTagSpec) (tags : List Str) (now : ℕ) (m m1 : Cache redis) (key : Str)
        → resolve_tag_names r specs ≡ inr tags
        → build_read_key redis hash false now route t specs r m ≡ some (m1, key)
        → key ≡ key_under (token_of versions now tags m).0.env (token_of versions now tags m).1
    unfolding build_read_key
    build_read_key-at specs tags now m m1 key resolved built = ap (key_or key) (
        sym built
        ∙ ap (with_tags redis hash false now route t r m) resolved
        ∙ ap (keyed redis hash route t r) (token_or_fault-none redis now tags m))

    key_under-hash :
        (env a b : Str)
        → key_under env a ≡ key_under env b
        → hash (canonical_of a) ≡ hash (canonical_of b)
    unfolding build_read_key_with_template
    key_under-hash env a b h =
        let after_env =
          append_cancel env (b':' ∷ (route_part_of route t ++ b':' ∷ hash (canonical_of a)))
            (b':' ∷ (route_part_of route t ++ b':' ∷ hash (canonical_of b))) (ap (drop 6) h) in
        ap (drop 1) (
          append_cancel (route_part_of route t) (b':' ∷ hash (canonical_of a))
            (b':' ∷ hash (canonical_of b)) (ap (drop 1) after_env))

    -- Two managers that give a request one key give it one token, unless the hash collides there.
    key-token :
        (now later : ℕ) (tags : List Str) (m n : Cache redis)
        → n.env ≡ m.env
        → (hash (canonical_of (token_of versions later tags n).1)
              ≡ hash (canonical_of (token_of versions now tags m).1)
            → canonical_of (token_of versions later tags n).1
              ≡ canonical_of (token_of versions now tags m).1)
        → key_under (token_of versions later tags n).0.env (token_of versions later tags n).1
          ≡ key_under (token_of versions now tags m).0.env (token_of versions now tags m).1
        → (token_of versions later tags n).1 ≡ (token_of versions now tags m).1
    key-token now later tags m n same no_collision keys =
        let a = (token_of versions later tags n).1 in
        let b = (token_of versions now tags m).1 in
        let envs =
          (token_of-store redis later tags n).1 ∙ same ∙ sym (token_of-store redis now tags m).1 in
        canonical-token hash route t r a b (
          no_collision (
            key_under-hash (token_of versions now tags m).0.env a b
              (ap (λ e. key_under e a) (sym envs) ∙ keys)))

    -- A read that finds no token cached, any number of other operations that lower no version, a
    -- write that answers a status of success and whose tags have one in common with the read, once
    -- trimmed, and the same read again: its key is new, so that what was stored under the old key is
    -- not found any more. The hash does not take the canonical strings of the two reads to one
    -- value, where they differ, and no call of Redis fails.
    pub cache_invalidate-new_key :
        (specs : List PreparedTagSpec) (written_specs : List CacheTagSpec) (next : Handler)
        (w : Request) (tag : Str) (asked written : List Str) (now later : ℕ)
        (m m' m1 m2 : Cache redis) (old_key new_key : Str)
        → m.tag_token_cache ≡ []
        → m'.env ≡ m.env
        → ((key : Str) → version_of key m ≤ version_of key m')
        → resolve_tag_names r specs ≡ inr asked
        → mem tag asked ≡ true
        → is_success (recorded_status 200 (next w)) ≡ true
        → resolve_tag_names w (normalize_tag_specs written_specs) ≡ inr written
        → mem tag (normalize_resolved_tags written) ≡ true
        → (hash (
                canonical_of
                  (token_of versions later asked
                    (cache_invalidate redis no_faults written_specs next w m').cache).1)
              ≡ hash (canonical_of (token_of versions now asked m).1)
            → canonical_of
                (token_of versions later asked
                  (cache_invalidate redis no_faults written_specs next w m').cache).1
              ≡ canonical_of (token_of versions now asked m).1)
        → build_read_key redis hash false now route t specs r m ≡ some (m1, old_key)
        → build_read_key redis hash false later route t specs r
            (cache_invalidate redis no_faults written_specs next w m').cache
          ≡ some (m2, new_key)
        → new_key ≢ old_key
    unfolding bump_tags
    cache_invalidate-new_key specs written_specs next w tag asked written now later m m' m1 m2
          old_key new_key fresh env grown reads asks ok writes bumps no_collision old new e =
        let n = (cache_invalidate redis no_faults written_specs next w m').cache in
        let tags = normalize_resolved_tags written in
        let after : n ≡ bumped versions tags m' =
          cache_invalidate-bumps written_specs next w written m' ok writes in
        let token =
          key-token now later asked m n (ap (λ x. x.env) after ∙ bumped-env tags m' ∙ env)
            no_collision
            (sym (build_read_key-at specs asked later n m2 new_key reads new)
              ∙ e
              ∙ build_read_key-at specs asked now m m1 old_key reads old) in
        bumped-token versions later tags asked tag m' m.store bumps asks grown (
          ap (λ x. (token_of versions later asked x).1) (sym after)
          ∙ token
          ∙ token_of-fresh versions now asked m fresh
          ∙ ap (λ e. fresh_token versions e m.store asked) (sym env))
