-- ===== src/Cache/Read/Fills.antt =====
-- A request that is observed as a miss and a set has stored what its handler wrote, under its key.
use superapi.Prelude.{
  ℕ, Str, ◌≡◌, ◌⊎◌, refl, sym, subst, ◌∙◌, Bool, true, false, Option, none, some, List, [], ◌∷◌,
  if◌then◌else◌, arith, inl, inr,
}
use superapi.Cache.Token.{token_of}
use superapi.Cache.Key.{Request, build_read_key_with_template}
use superapi.Cache.Tags.{TagError}
use superapi.Cache.Store.{
  Redis, Cache, CachedResponse, Codec, Faults, Got, hit, miss, get_failed, get_cached, set_cached,
  token_or_fault, keyed, with_tags, with_store,
}
use superapi.Cache.Writer.{
  Call, CachingResponseWriter, new_caching_response_writer, capture_all, cacheable,
}
use superapi.Cache.Read.{
  CacheReadRuntime, Outcome, miss_outcome, set_outcome, error_outcome, Served, failed_over,
  cached_response, captured, fill, looked_up, with_key,
}

abbrev pub no_faults : Faults
no_faults = record { mget = false; get = false; set = false; pipeline = false }

abbrev pub missed_and_set : List Outcome
missed_and_set = miss_outcome ∷ set_outcome ∷ []

none_or_some :
    {A : Type 0} (b : Bool) (x : A)
    → ((if b then none else some x) ≡ none) ⊎ ((if b then none else some x) ≡ some x)
none_or_some true x = inl refl
none_or_some false x = inr refl

module _ (redis : Redis) where
  open redis use {versions, held, put, held-put}

  -- The cache after a response is stored.
  abbrev pub after_set :
      Codec → ℕ → CacheReadRuntime → Str → Cache redis → CachedResponse → Cache redis
  after_set json now c key m value =
      with_store redis m (put now key (json.encode value) c.ttl m.store)

  token_or_fault-cases :
      (fault : Bool) (now : ℕ) (tags : List Str) (m : Cache redis)
      → (token_or_fault redis fault now tags m ≡ none)
        ⊎ (token_or_fault redis fault now tags m ≡ some (token_of versions now tags m))
  unfolding token_or_fault
  token_or_fault-cases fault now [] m = inr refl
  token_or_fault-cases fault now (tag ∷ tags) m =
      none_or_some _ (token_of versions now (tag ∷ tags) m)

  module _ (json : Codec) (faults : Faults) (now : ℕ) (c : CacheReadRuntime) where
    abbrev pub kept : List Call → CachingResponseWriter
    kept calls = capture_all calls (new_caching_response_writer c.max_bytes c.cache_statuses)

    -- Only a miss whose response is stored is observed as a miss and a set.
    captured-set :
        (calls : List Call) (key : Str) (m : Cache redis) (w : CachingResponseWriter)
        → (captured redis json faults now c calls key m (miss_outcome ∷ []) w).observed
          ≡ missed_and_set
        → (cacheable w ≡ true)
          × ((captured redis json faults now c calls key m (miss_outcome ∷ []) w).cache
              ≡ after_set json now c key m (cached_response redis w))
    unfolding set_cached
    captured-set calls key m w h = ground arith

    looked_up-set :
        (calls : List Call) (key : Str) (m : Cache redis) (g : Got)
        → (looked_up redis json faults now c calls key m g).observed ≡ missed_and_set
        → (cacheable (kept calls) ≡ true)
          × ((looked_up redis json faults now c calls key m g).cache
              ≡ after_set json now c key m (cached_response redis (kept calls)))
    unfolding fill
    looked_up-set calls key m (hit r) h = ground arith
    looked_up-set calls key m miss h = captured-set calls key m (kept calls) h
    looked_up-set calls key m get_failed h = ground arith

  failed_over-unset :
      (fail_open : Bool) (calls : List Call) (m : Cache redis)
      → (failed_over redis fail_open calls m).observed ≡ error_outcome ∷ []
  failed_over-unset true calls m = refl
  failed_over-unset false calls m = refl

  module _ (hash : Str → Str) (route : Str) (c : CacheReadRuntime) (r : Request) where
    -- The key of the request at a time.
    abbrev pub key_at : ℕ → List Str → Cache redis → Str
    key_at now tags m =
        build_read_key_with_template hash (token_of versions now tags m).0.env route c.template
          (token_of versions now tags m).1 r

    module _ (json : Codec) (faults : Faults) (now : ℕ) (calls : List Call) where
      -- What a request leaves that is observed as a miss and a set.
      abbrev pub Sets : Cache redis → TagError ⊎ List Str → Cache redis → Type 0
      Sets m o m' =
          (tags : List Str) × (o ≡ inr tags)
          × (cacheable (kept json faults now c calls) ≡ true)
          × (m'
              ≡ after_set json now c (key_at now tags m) (token_of versions now tags m).0
                  (cached_response redis (kept json faults now c calls)))

      abbrev pub answered : Cache redis → Option (Cache redis × Str) → Served redis
      answered = with_key redis json faults now c calls

      keyed-set :
          (tags : List Str) (m : Cache redis) (k : Option (Cache redis × Str))
          → (k ≡ none) ⊎ (k ≡ some (token_of versions now tags m))
          → (answered m (keyed redis hash route c.template r k)).observed ≡ missed_and_set
          → Sets m (inr tags) (answered m (keyed redis hash route c.template r k)).cache
      keyed-set tags m k (inl e) h =
          let none_observed : error_outcome ∷ [] ≡ missed_and_set =
            sym (failed_over-unset c.fail_open calls m)
            ∙ subst
                (λ x.
                  (answered m (keyed redis hash route c.template r x)).observed ≡ missed_and_set)
                e h in
          absurd (ground arith)
      keyed-set tags m k (inr e) h =
          let token = token_of versions now tags m in
          subst (λ x. Sets m (inr tags) (answered m (keyed redis hash route c.template r x)).cache)
            (sym e)
            (let found =
                looked_up-set json faults now c calls (key_at now tags m) token.0
                  (get_cached redis json faults.get now (key_at now tags m) token.0)
                  (subst
                    (λ x.
                      (answered m (keyed redis hash route c.template r x)).observed
                      ≡ missed_and_set)
                    e h) in
              (tags, refl, found.0, found.1))

      pub with_tags-set :
          (m : Cache redis) (o : TagError ⊎ List Str)
          → (answered m (with_tags redis hash faults.mget now route c.template r m o)).observed
            ≡ missed_and_set
          → Sets m o
              (answered m (with_tags redis hash faults.mget now route c.template r m o)).cache
      with_tags-set m (inl e) h =
          let none_observed : error_outcome ∷ [] ≡ missed_and_set =
            sym (failed_over-unset c.fail_open calls m) ∙ h in
          absurd (ground arith)
      with_tags-set m (inr tags) h =
          keyed-set tags m (token_or_fault redis faults.mget now tags m)
            (token_or_fault-cases faults.mget now tags m) h
