-- ===== src/Cache/Read/Tests.antt =====
-- Redis in memory with an encoding of responses, a route that is cached, and the theorem at them.
use superapi.Prelude.{
  ℕ, Str, str, ◌≡◌, ◌≢◌, mem, refl, true, false, Option, none, some, List, [], ◌∷◌, ◌==◌,
  if◌then◌else◌, arith,
}
use superapi.Prelude.Utf8.{valid_utf8}
use superapi.Cache.Token.{store_tag_token, fresh_token, normalize_resolved_tags}
use superapi.Cache.Key.{Request}
use superapi.Cache.Tags.{CacheTagSpec, resolve_tag_names, normalize_tag_specs}
use superapi.Cache.Store.{Cache, Faults, build_read_key}
use superapi.Cache.Writer.{write, recorded_status, content_type_of}
use superapi.Cache.Writer.Plain.{plain, headers_after}
use superapi.Cache.Read.{
  CacheReadConfig, CacheReadRuntime, Defaults, new_cache_read_runtime, cache_read_config_is_valid,
  Handler, Served, cache_read, cache_invalidate, service_unavailable, unsafe_config, miss_outcome,
  hit_outcome, bypass_outcome, Outcome,
}
use superapi.Cache.Read.Invalidates.{cache_invalidate-new_key}
use superapi.Cache.Read.Fills.{no_faults, missed_and_set}
use superapi.Cache.Read.Replay.{IsReplayed, cache_read-IsReplayed}
use superapi.Cache.Read.Memory.{memory, frames}

abbrev project_tag : CacheTagSpec
project_tag = record {
  name = str " Project";
  path_params = str "id" ∷ [];
  user_id = false;
  parts = [];
  literals = record { key = str "kind"; value = str "a b" } ∷ [];
}

abbrev config : CacheReadConfig
config = record {
  key = [];
  ttl = 60;
  max_bytes = 8;
  tag_specs = project_tag ∷ [];
  methods = [];
  cache_statuses = [];
  vary_by = record {
    by_method = true;
    by_user_id = false;
    by_role = false;
    parts = [];
    path_params = str "id" ∷ [];
    query_params = [];
    headers = [];
  };
  fail_open = none;
  allow_authenticated = false;
}

abbrev defaults : Defaults
defaults = record { fail_open = false; default_max_bytes = 1024 }

abbrev project_id : Str → Str
project_id = λ name. if name == str "id" then str "7" else []

abbrev anonymous : Request
anonymous = record {
  method = str "get";
  has_principal = false;
  has_attributes = false;
  user_id = [];
  role = [];
  path_param = project_id;
  header_values = λ name. [];
  query_values = λ name. [];
}

abbrev signed_in : Request
signed_in = record anonymous { has_principal = true; user_id = str "u1" }

abbrev empty_cache : Cache memory
empty_cache = record {
  env = str "dev";
  tag_token_ttl = 1000;
  tag_token_cache = [];
  store = ((λ key. 0), λ key. none);
}

abbrev html : List (Str × Str)
html = (str "Content-Type", str "text/html") ∷ []

abbrev pieces : List Str
pieces = str "ab" ∷ str "cd" ∷ []

abbrev page : Handler
page = λ r. plain html none pieces

abbrev too_long : Handler
too_long = λ r. write (str "123456789") ∷ []

abbrev same_hash : Str → Str
same_hash = λ s. s

abbrev get_fails : Faults
get_fails = record no_faults { get = true }

abbrev route : Str
route = str "/p/{id}"

runtime : CacheReadRuntime
unfolding new_cache_read_runtime
runtime = new_cache_read_runtime defaults config

first : Served memory
unfolding runtime cache_read
first = cache_read memory same_hash frames no_faults 5 route runtime page anonymous empty_cache

config_is_valid : cache_read_config_is_valid config ≡ true
unfolding cache_read_config_is_valid
config_is_valid = refl

first_observed : first.observed ≡ missed_and_set
unfolding first store_tag_token
first_observed = refl

-- The same request, answered without its handler until the 60 are over, or a write of the tag.
observed_at : ℕ → Cache memory → List Outcome
unfolding cache_read runtime store_tag_token
observed_at later m =
    (cache_read memory same_hash frames no_faults later route runtime too_long anonymous m).observed

second_observed : observed_at 64 first.cache ≡ hit_outcome ∷ []
unfolding observed_at first store_tag_token fresh_token
second_observed = refl

late_observed : observed_at 65 first.cache ≡ miss_outcome ∷ bypass_outcome ∷ []
unfolding observed_at first store_tag_token fresh_token
late_observed = refl

written_observed :
    observed_at 6
      (cache_invalidate memory no_faults (project_tag ∷ []) page anonymous first.cache).cache
    ≡ miss_outcome ∷ bypass_outcome ∷ []
unfolding observed_at first cache_invalidate store_tag_token fresh_token
written_observed = refl

unsafe_observed :
    (cache_read memory same_hash frames no_faults 5 route runtime page signed_in empty_cache).answer
    ≡ unsafe_config
unfolding cache_read runtime store_tag_token
unsafe_observed = refl

closed_observed :
    (cache_read memory same_hash frames get_fails 5 route runtime page anonymous empty_cache).answer
    ≡ service_unavailable
unfolding cache_read runtime store_tag_token
closed_observed = refl

cache_read-IsReplayed_example : IsReplayed memory (page anonymous) (
    cache_read memory same_hash frames no_faults 64 route runtime too_long anonymous
      (cache_read memory same_hash frames no_faults 5 route runtime page anonymous
        empty_cache).cache)
cache_read-IsReplayed_example =
    cache_read-IsReplayed memory same_hash frames no_faults 5 64 route runtime page too_long
      anonymous empty_cache html none pieces refl (unfold runtime in refl) refl
      (unfold valid_utf8 content_type_of headers_after ◌==◌ in refl) refl (omega arith)
      (unfold runtime in refl) (unfold runtime cache_read store_tag_token in refl)

abbrev project_7 : List Str
project_7 = str "project|lit.kind=a+b|path.id=7" ∷ []

abbrev found : Option (Cache memory × Str) → Cache memory × Str
found none = (empty_cache, [])
found (some read) = read

key_at_time : ℕ → Cache memory → Option (Cache memory × Str)
unfolding build_read_key runtime
key_at_time now m =
    build_read_key memory same_hash false now route runtime.template runtime.tag_specs anonymous m

abbrev after_write : Cache memory
after_write =
    (cache_invalidate memory no_faults (project_tag ∷ []) page anonymous first.cache).cache

first_key :
    (found (key_at_time 5 empty_cache)).1
    ≡ str
        "cache:dev:/p/{id}:route=/p/{id}|method=GET|path.id=7|tags=project|lit.kind=a+b|path.id=7=0"
unfolding key_at_time store_tag_token fresh_token
first_key = refl

cache_invalidate-new_key_example :
    (found (key_at_time 6 after_write)).1 ≢ (found (key_at_time 5 empty_cache)).1
cache_invalidate-new_key_example =
    cache_invalidate-new_key memory same_hash route runtime.template anonymous runtime.tag_specs
      (project_tag ∷ []) page anonymous (str "project|lit.kind=a+b|path.id=7") project_7 project_7 5
      6 empty_cache first.cache (found (key_at_time 5 empty_cache)).0
      (found (key_at_time 6 after_write)).0 (found (key_at_time 5 empty_cache)).1
      (found (key_at_time 6 after_write)).1 refl (unfold first store_tag_token in refl)
      (λ key. unfold first store_tag_token in omega arith)
      (unfold runtime resolve_tag_names in refl) (unfold mem ◌==◌ in refl)
      (unfold recorded_status in refl) (unfold resolve_tag_names normalize_tag_specs in refl)
      (unfold mem ◌==◌ normalize_resolved_tags in refl) (λ same. same)
      (unfold key_at_time build_read_key store_tag_token fresh_token in refl)
      (unfold key_at_time build_read_key store_tag_token fresh_token first cache_invalidate in refl)
