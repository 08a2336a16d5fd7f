-- ===== src/Cache/Read/Replay.antt =====
-- A response that CacheRead stores is what the next request of the same key is answered.
use superapi.Prelude.{
  ℕ, ◌+◌, ◌≤◌, Str, str, ◌≡◌, refl, ap, sym, subst, ◌∙◌, Bool, true, false, not, ◌&&◌, Option, none,
  some, List, [], ◌∷◌, ◌++◌, ◌==◌, Dict, eqb, ltb, if◌then◌else◌, arith, inr,
}
use superapi.Prelude.Utf8.{valid_utf8}
use superapi.Cache.Token.{token_of, fresh_token}
use superapi.Cache.Key.{Request, build_read_key_with_template, route_part_of, canonical}
use superapi.Cache.Tags.{resolve_tag_names}
use superapi.Cache.Store.{
  Redis, Cache, CachedResponse, Codec, Faults, hit, get_cached, token_or_fault, keyed, with_tags,
  build_read_key, payload_of, decoded,
}
use superapi.Cache.Writer.{
  Call, CachingResponseWriter, new_caching_response_writer, capture_all, cacheable, content_type_of,
  Received, received,
}
use superapi.Cache.Writer.Plain.{
  plain, status_of, joined, headers_after, received-plain, capture_all-plain,
}
use superapi.Cache.Read.{
  CacheReadRuntime, hit_outcome, bypass_outcome, wrote, Handler, replay, Served, served,
  cached_response, looked_up, with_key, cache_read, method_allowed, has_auth_principal,
}
use superapi.Cache.Read.Stable.{token_of-store, token_of-again, fresh_token-put}
use superapi.Cache.Read.Fills.{no_faults, missed_and_set, after_set, kept, key_at, with_tags-set}

if_true : {A : Type 0} (x y : A) (b : Bool) → b ≡ true → (if b then x else y) ≡ x
if_true x y b e = rw e refl

decoded-positive :
    (value : CachedResponse) → eqb value.status 0 ≡ false → decoded (some value) ≡ hit value
decoded-positive value h = rw h refl

cacheable-fits : (w : CachingResponseWriter) → cacheable w ≡ true → w.too_large ≡ false
unfolding cacheable
cacheable-fits w h = ground arith

replayed :
    (content_type : Str) (value : CachedResponse)
    → received (replay (record value { content_type = content_type }))
      ≡ record { status = value.status; body = value.body; content_type = content_type }
unfolding received ◌==◌
replayed [] value = refl
replayed (b ∷ content_type) value = refl

received-replay :
    (value : CachedResponse)
    → received (replay value)
      ≡ record { status = value.status; body = value.body; content_type = value.content_type }
received-replay value = replayed value.content_type value

module _ (redis : Redis) where
  open redis use {versions, held, put, held-put}

  pub token_or_fault-none :
      (now : ℕ) (tags : List Str) (m : Cache redis)
      → token_or_fault redis false now tags m ≡ some (token_of versions now tags m)
  unfolding token_or_fault
  token_or_fault-none now [] m = refl
  token_or_fault-none now (tag ∷ tags) m = refl

  -- The answer of a cached response, of which the client gets what it would get of the calls.
  abbrev pub IsReplayed : List Call → Served redis → Type 0
  IsReplayed calls s =
      (replayed_calls : List Call) × (s.answer ≡ wrote replayed_calls)
      × (received replayed_calls ≡ received calls)
      × (s.observed ≡ hit_outcome ∷ [])

  module _ (hash : Str → Str) (route : Str) (c : CacheReadRuntime) (r : Request) where
    module _ (json : Codec) (now later : ℕ) (tags : List Str) (m : Cache redis)
        (value : CachedResponse) where
      abbrev then_cache : Cache redis
      then_cache =
          after_set redis json now c (key_at redis hash route c r now tags m)
            (token_of versions now tags m).0 value

      key_at-again :
          m.tag_token_cache ≡ []
          → key_at redis hash route c r later tags then_cache
            ≡ key_at redis hash route c r now tags m
      unfolding build_read_key_with_template
      key_at-again h =
          let before = token_of-store redis now tags m in
          let after = token_of-store redis later tags then_cache in
          let rest =
            (token_of versions now tags m).0.env
            ++ (str ":"
                ++ (route_part_of route c.template
                    ++ (str ":"
                        ++ hash (
                            canonical hash route c.template (token_of versions now tags m).1
                              r)))) in
          let stored = then_cache.store in
          let same_versions : fresh_token versions m.env stored tags
              ≡ fresh_token versions m.env m.store tags =
            fresh_token-put redis now c.ttl rest (json.encode value) m.env
              (token_of versions now tags m).0.store tags
            ∙ ap (λ s. fresh_token versions m.env s tags) before.0 in
          let token = token_of-again redis now later tags m stored h same_versions in
          ap
            (λ e.
              build_read_key_with_template hash e route c.template
                (token_of versions later tags then_cache).1 r)
            after.1
          ∙ ap
              (λ t.
                build_read_key_with_template hash (token_of versions now tags m).0.env route
                  c.template t r)
              token

      get_cached-again :
          (key : Str)
          → key ≡ key_at redis hash route c r now tags m
          → now ≤ later
          → ltb later (now + c.ttl) ≡ true
          → eqb value.status 0 ≡ false
          → valid_utf8 value.content_type ≡ true
          → get_cached redis json false later key (token_of versions later tags then_cache).0
            ≡ hit value
      unfolding get_cached
      get_cached-again key same order live positive valid =
          let store = (token_of-store redis later tags then_cache).0 in
          let found =
            held-put now later c.ttl (key_at redis hash route c r now tags m) (json.encode value)
              (token_of versions now tags m).0.store order in
          ap (λ s. payload_of json (held later key s)) store
          ∙ ap (λ k. payload_of json (held later k then_cache.store)) same
          ∙ ap (payload_of json) (found ∙ if_true _ none _ live)
          ∙ ap decoded (json.decode-encode value valid)
          ∙ decoded-positive value positive

      with_tags-again :
          (calls : List Call)
          → m.tag_token_cache ≡ []
          → now ≤ later
          → ltb later (now + c.ttl) ≡ true
          → eqb value.status 0 ≡ false
          → valid_utf8 value.content_type ≡ true
          → with_key redis json no_faults later c calls then_cache
              (with_tags redis hash false later route c.template r then_cache (inr tags))
            ≡ served redis
                (wrote (replay value))
                (token_of versions later tags then_cache).0
                (hit_outcome ∷ [])
      with_tags-again calls h order live positive valid =
          let next = token_of versions later tags then_cache in
          ap
            (λ k.
              with_key redis json no_faults later c calls then_cache
                (keyed redis hash route c.template r k))
            (token_or_fault-none later tags then_cache)
          ∙ ap
              (looked_up redis json no_faults later c calls
                (key_at redis hash route c r later tags then_cache) next.0)
              (get_cached-again (key_at redis hash route c r later tags then_cache) (key_at-again h)
                order live positive valid)

  abbrev received_of : CachedResponse → Received
  received_of v = record { status = v.status; body = v.body; content_type = v.content_type }

  -- What is stored of a handler that sets headers and then writes.
  kept_value :
      (c : CacheReadRuntime) (calls : List Call) (headers : Dict Str) (status : Option ℕ)
      (chunks : List Str)
      → eqb c.max_bytes 0 ≡ false
      → calls ≡ plain headers status chunks
      → cacheable (capture_all calls (new_caching_response_writer c.max_bytes c.cache_statuses))
        ≡ true
      → cached_response redis
          (capture_all calls (new_caching_response_writer c.max_bytes c.cache_statuses))
        ≡ record {
          status = status_of status;
          body = joined chunks;
          content_type = content_type_of (headers_after headers []);
        }
  kept_value c calls headers status chunks limit same ok =
      let writer = new_caching_response_writer c.max_bytes c.cache_statuses in
      let fits : (capture_all (plain headers status chunks) writer).too_large ≡ false =
        ap (λ cs. (capture_all cs writer).too_large) (sym same)
        ∙ cacheable-fits (capture_all calls writer) ok in
      ap (λ cs. cached_response redis (capture_all cs writer)) same
      ∙ ap (cached_response redis)
          (capture_all-plain c.max_bytes c.cache_statuses headers status chunks limit fits)

  -- Behind the tests of the method and of the route's safety.
  gated :
      (allowed unsafe : Bool) (x y z : Served redis)
      → x.observed ≡ bypass_outcome ∷ []
      → y.observed ≡ []
      → (if not allowed then x else if unsafe then y else z).observed ≡ missed_and_set
      → (allowed ≡ true)
        × (unsafe ≡ false)
        × ((if not allowed then x else if unsafe then y else z) ≡ z)
  gated false unsafe x y z bypassed silent h = ground arith
  gated true true x y z bypassed silent h = ground arith
  gated true false x y z bypassed silent h = (refl, refl, refl)

  opened :
      (allowed unsafe : Bool) (x y z : Served redis)
      → allowed ≡ true
      → unsafe ≡ false
      → (if not allowed then x else if unsafe then y else z) ≡ z
  opened allowed unsafe x y z a u = rw (a, u) refl

  -- A client's request that fills the cache, and one with the same request before the entry's time
  -- is over: the second is answered from the cache, without the handler, and its client gets the
  -- status, the body and the content type that the first one got. The handler of the first sets
  -- headers, of which the content type is valid UTF-8, then writes a status that is not 0 or none, then
  -- the body; the manager has no token of tags cached before, the route has a size limit that is not
  -- 0, and the calls of Redis do not fail in the second request.
  pub cache_read-IsReplayed :
      (hash : Str → Str) (json : Codec) (faults : Faults) (now later : ℕ) (route : Str)
      (c : CacheReadRuntime) (next other : Handler) (r : Request) (m : Cache redis)
      (headers : Dict Str) (status : Option ℕ) (chunks : List Str)
      → m.tag_token_cache ≡ []
      → eqb c.max_bytes 0 ≡ false
      → eqb (status_of status) 0 ≡ false
      → valid_utf8 (content_type_of (headers_after headers [])) ≡ true
      → next r ≡ plain headers status chunks
      → now ≤ later
      → ltb later (now + c.ttl) ≡ true
      → (cache_read redis hash json faults now route c next r m).observed ≡ missed_and_set
      → IsReplayed (next r) (
          cache_read redis hash json no_faults later route c other r
            (cache_read redis hash json faults now route c next r m).cache)
  unfolding cache_read build_read_key
  cache_read-IsReplayed hash json faults now later route c next other r m headers status chunks
        fresh limit positive valid handler order live h =
      let gate =
        gated (method_allowed c r.method) (c.require_auth_safety && has_auth_principal r) _ _ _ refl
          refl h in
      let filled =
        with_tags-set redis hash route c r json faults now (next r) m
          (resolve_tag_names r c.tag_specs) (sym (ap (λ x. x.observed) gate.2) ∙ h) in
      let value = cached_response redis (kept redis json faults now c (next r)) in
      let same = kept_value c (next r) headers status chunks limit handler filled.2 in
      let after = ap (λ x. x.cache) gate.2 ∙ filled.3 in
      let second =
        opened (method_allowed c r.method) (c.require_auth_safety && has_auth_principal r) _ _ _
          gate.0 gate.1
        ∙ ap
            (λ o.
              with_key redis json no_faults later c (other r)
                (then_cache hash route c r json now later filled.0 m value)
                (with_tags redis hash false later route c.template r
                  (then_cache hash route c r json now later filled.0 m value) o))
            filled.1
        ∙ with_tags-again hash route c r json now later filled.0 m value (other r) fresh order live
            (ap (λ (x : CachedResponse). eqb x.status 0) same ∙ positive)
            (ap (λ (x : CachedResponse). valid_utf8 x.content_type) same ∙ valid) in
      let answer =
        received-replay value
        ∙ ap received_of same
        ∙ sym (ap received handler ∙ received-plain headers status chunks) in
      subst
        (λ x. IsReplayed (next r) (cache_read redis hash json no_faults later route c other r x))
        (sym after) (subst (IsReplayed (next r)) (sym second) (replay value, refl, answer, refl))
