-- ===== src/Cache/Read.antt =====
-- internal/core/policy/cache.go: CacheRead and CacheInvalidate. A handler is what it does to its
-- writer for a request. The memo of route labels, a pure function of the route, is left out, and the
-- observer of outcomes is the list of what is observed. A duration or a limit below 0, which the
-- source treats as 0, is 0.
pub mod Stable
pub mod Fills
pub mod Replay
pub mod Invalidates
pub mod Memory
mod Tests
use superapi.Prelude.{
  ℕ, Str, str, String, ◌⊎◌, inl, inr, Bool, true, false, not, ◌&&◌, ◌||◌, Option, none, some, List,
  [], ◌∷◌, ◌++◌, ◌==◌, mem, any, all, eqb, leb, ltb, trim_space, to_upper, if◌then◌else◌,
}
use superapi.Cache.Token.{Manager, bump_tags, normalize_resolved_tags}
use superapi.Cache.Key.{Request, KeyPart, CacheVaryBy, ReadKeyTemplate, prepare_read_key_template}
use superapi.Cache.Tags.{
  CacheTagSpec, PreparedTagSpec, TagError, normalize_tag_specs, resolve_tag_names,
  tag_specs_are_valid, key_part_is_valid,
}
use superapi.Cache.Store.{
  Redis, Cache, CachedResponse, Codec, Faults, Got, hit, miss, get_failed, get_cached, set_cached,
  build_read_key,
}
use superapi.Cache.Writer.{
  Call, set_header, write_header, write, CachingResponseWriter, new_caching_response_writer,
  capture_all, cacheable, content_type_of, recorded_status,
}

pub record CacheReadConfig : Type 0 where
  pub key : Str
  pub ttl : ℕ
  pub max_bytes : ℕ
  pub tag_specs : List CacheTagSpec
  pub methods : List Str
  pub cache_statuses : List ℕ
  pub vary_by : CacheVaryBy
  pub fail_open : Option Bool
  pub allow_authenticated : Bool

-- What the manager was made with.
pub record Defaults : Type 0 where
  pub fail_open : Bool
  pub default_max_bytes : ℕ

pub record CacheReadRuntime : Type 0 where
  pub ttl : ℕ
  pub template : ReadKeyTemplate
  pub tag_specs : List PreparedTagSpec
  pub allowed_methods : List Str
  pub cache_statuses : List ℕ
  pub max_bytes : ℕ
  pub require_auth_safety : Bool
  pub fail_open : Bool

unfoldable pub upper_methods : List Str → List Str
unfolding to_upper trim_space ◌==◌
upper_methods [] = []
upper_methods (m ∷ ms) =
    let rest = upper_methods ms in
    let method = to_upper (trim_space m) in if method == [] then rest else method ∷ rest

abbrev or_get_and_head : List Str → List Str
or_get_and_head [] = str "GET" ∷ str "HEAD" ∷ []
or_get_and_head (m ∷ ms) = m ∷ ms

unfoldable pub build_method_set : List Str → List Str
unfolding upper_methods
build_method_set configured = or_get_and_head (upper_methods configured)

unfoldable pub build_cache_status_set : List ℕ → List ℕ
build_cache_status_set [] = 200 ∷ []
build_cache_status_set (s ∷ statuses) = s ∷ statuses

abbrev pub resolve_fail_open : Bool → Option Bool → Bool
resolve_fail_open default none = default
resolve_fail_open default (some b) = b

abbrev key_part_kept : Option (Request → Str) → Bool
key_part_kept none = false
key_part_kept (some extract) = true

-- A part that is kept in the template and bears an identity.
abbrev has_identity_part : List KeyPart → Bool
has_identity_part parts =
    any (λ p. key_part_kept p.extract && not (trim_space p.name == []) && p.identity) parts

unfoldable pub new_cache_read_runtime : Defaults → CacheReadConfig → CacheReadRuntime
unfolding prepare_read_key_template normalize_tag_specs build_method_set build_cache_status_set
    trim_space ◌==◌
new_cache_read_runtime d cfg = record {
  ttl = cfg.ttl;
  template = prepare_read_key_template cfg.key cfg.allow_authenticated cfg.vary_by;
  tag_specs = normalize_tag_specs cfg.tag_specs;
  allowed_methods = build_method_set cfg.methods;
  cache_statuses = build_cache_status_set cfg.cache_statuses;
  max_bytes = if eqb cfg.max_bytes 0 then d.default_max_bytes else cfg.max_bytes;
  require_auth_safety = not cfg.vary_by.by_user_id && not (has_identity_part cfg.vary_by.parts);
  fail_open = resolve_fail_open d.fail_open cfg.fail_open;
}

-- CacheRead panics on a configuration that is not valid.
unfoldable pub cache_read_config_is_valid : CacheReadConfig → Bool
unfolding tag_specs_are_valid key_part_is_valid
cache_read_config_is_valid cfg =
    ltb 0 cfg.ttl
    && tag_specs_are_valid false cfg.tag_specs
    && all key_part_is_valid cfg.vary_by.parts

unfoldable pub method_allowed : CacheReadRuntime → Str → Bool
unfolding mem ◌==◌ to_upper trim_space
method_allowed c method = mem (to_upper (trim_space method)) c.allowed_methods

unfoldable pub has_auth_principal : Request → Bool
unfolding trim_space ◌==◌
has_auth_principal r =
    r.has_principal
    && (not (trim_space r.user_id == []) || not (trim_space r.role == []) || r.has_attributes)

pub data Outcome : Type 0 where
  hit_outcome miss_outcome set_outcome bypass_outcome error_outcome : Outcome

-- What is done to the writer of the policy, the answer 503, or the panic of a route that serves
-- cached responses to authenticated requests without telling them apart.
pub data Answer : Type 0 where
  wrote : List Call → Answer
  service_unavailable : Answer
  unsafe_config : Answer

abbrev pub Handler : Type 0
Handler = Request → List Call

abbrev pub content_type_call : Str → List Call
content_type_call [] = []
content_type_call (c ∷ s) = set_header (str "Content-Type") (c ∷ s) ∷ []

-- What is written for a cached response.
abbrev pub replay : CachedResponse → List Call
replay c = content_type_call c.content_type ++ write_header c.status ∷ write c.body ∷ []

module _ (redis : Redis) where
  pub record Served : Type 0 where
    pub answer : Answer
    pub cache : Cache redis
    pub observed : List Outcome

  abbrev pub served : Answer → Cache redis → List Outcome → Served
  served answer m observed = record { answer = answer; cache = m; observed = observed }

  abbrev pub failed_over : Bool → List Call → Cache redis → Served
  failed_over true calls m = served (wrote calls) m (error_outcome ∷ [])
  failed_over false calls m = served service_unavailable m (error_outcome ∷ [])

  abbrev pub stored : List Call → Cache redis → List Outcome → Option (Cache redis) → Served
  stored calls m before none = served (wrote calls) m (before ++ error_outcome ∷ [])
  stored calls m before (some m') = served (wrote calls) m' (before ++ set_outcome ∷ [])

  abbrev pub cached_response : CachingResponseWriter → CachedResponse
  cached_response w = record {
    status = w.status_code;
    body = w.body;
    content_type = content_type_of w.header;
  }

  abbrev pub captured :
      Codec
      → Faults
      → ℕ
      → CacheReadRuntime
      → List Call
      → Str
      → Cache redis
      → List Outcome
      → CachingResponseWriter
      → Served
  captured json faults now c calls key m before w =
      if not (cacheable w)
      then served (wrote calls) m (before ++ bypass_outcome ∷ [])
      else stored calls m before
          (set_cached redis json faults.set now key (cached_response w) c.ttl m)

  -- The handler is run, and its response kept where it may be.
  unfoldable pub fill :
      Codec → Faults → ℕ → CacheReadRuntime → List Call → Str → Cache redis → List Outcome → Served
  unfolding capture_all new_caching_response_writer cacheable content_type_of set_cached
  fill json faults now c calls key m before =
      captured json faults now c calls key m before
        (capture_all calls (new_caching_response_writer c.max_bytes c.cache_statuses))

  abbrev pub looked_up :
      Codec → Faults → ℕ → CacheReadRuntime → List Call → Str → Cache redis → Got → Served
  looked_up json faults now c calls key m (hit r) = served (wrote (replay r)) m (hit_outcome ∷ [])
  looked_up json faults now c calls key m miss =
      fill json faults now c calls key m (miss_outcome ∷ [])
  looked_up json faults now c calls key m get_failed =
      if c.fail_open
      then fill json faults now c calls key m (error_outcome ∷ miss_outcome ∷ [])
      else served service_unavailable m (error_outcome ∷ [])

  abbrev pub with_key :
      Codec
      → Faults
      → ℕ
      → CacheReadRuntime
      → List Call
      → Cache redis
      → Option (Cache redis × Str)
      → Served
  with_key json faults now c calls m none = failed_over c.fail_open calls m
  with_key json faults now c calls m (some (m', key)) =
      looked_up json faults now c calls key m' (get_cached redis json faults.get now key m')

  unfoldable pub cache_read :
      (Str → Str)
      → Codec
      → Faults
      → ℕ
      → Str
      → CacheReadRuntime
      → Handler
      → Request
      → Cache redis
      → Served
  unfolding method_allowed has_auth_principal build_read_key get_cached fill
  cache_read hash json faults now route c next r m =
      if not (method_allowed c r.method)
      then served (wrote (next r)) m (bypass_outcome ∷ [])
      else if c.require_auth_safety && has_auth_principal r
      then served unsafe_config m []
      else with_key json faults now c (next r) m
          (build_read_key redis hash faults.mget now route c.template c.tag_specs r m)

  abbrev pub invalidated : Bool → List Call → Cache redis → TagError ⊎ List Str → Served
  invalidated fault calls m (inl e) = served (wrote calls) m (error_outcome ∷ [])
  invalidated fault calls m (inr []) = served (wrote calls) m []
  invalidated fault calls m (inr (tag ∷ tags)) =
      if fault
      then served (wrote calls) m (error_outcome ∷ [])
      else served (wrote calls) (bump_tags redis.versions (tag ∷ tags) m) []

  -- CacheInvalidate: the handler first, and on a status of success its tags are bumped.
  unfoldable pub cache_invalidate :
      Faults → List CacheTagSpec → Handler → Request → Cache redis → Served
  unfolding recorded_status resolve_tag_names normalize_tag_specs bump_tags
  cache_invalidate faults specs next r m =
      let status = recorded_status 200 (next r) in
      if ltb status 200 || leb 300 status
      then served (wrote (next r)) m []
      else invalidated faults.pipeline (next r) m (resolve_tag_names r (normalize_tag_specs specs))
