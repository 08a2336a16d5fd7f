-- ===== src/Cache/Tests.antt =====
-- Versions in memory, tokens of tags on them, and the theorem at them.
use superapi.Prelude.{
  ℕ, suc, Str, str, ◌≡◌, ◌≢◌, refl, true, false, List, [], ◌∷◌, ◌==◌, mem, if◌then◌else◌, arith,
  trim_space,
}
use superapi.Cache.Decimal.{format_int}
use superapi.Cache.Token.{
  Versions, normalize_resolved_tags, Manager, fresh_token, tag_version_token, bump_tags,
}
use superapi.Cache.Invalidation.{bump_tags-token}
use superapi.Cache.Key.{
  Request, UsablePart, CacheVaryBy, ReadKeyTemplate, prepare_read_key_template, canonical,
}
use superapi.Cache.Key.Isolation.{canonical-first_part}

abbrev memory_versions : Versions
memory_versions = record {
  Store = Str → ℕ;
  version = λ key s. s key;
  incr = λ key s. λ other. if key == other then suc (s other) else s other;
  version-incr = λ key other s. refl;
}

abbrev no_versions : Str → ℕ
no_versions = λ key. 0

abbrev manager : Manager memory_versions
manager = record {
  env = str "dev";
  tag_token_ttl = 1000;
  tag_token_cache = [];
  store = no_versions;
}

abbrev asked : List Str
asked = str "project" ∷ str " user " ∷ str "project" ∷ []

decimal : format_int 1290 ≡ str "1290"
unfolding format_int
decimal = refl

first_token : (tag_version_token memory_versions 5 asked manager).1 ≡ str "project=0,user=0"
unfolding tag_version_token
first_token = refl

-- The token that is kept, until the tags are bumped.
bumped_token :
    (tag_version_token memory_versions 6 asked (
      bump_tags memory_versions
        (str "user" ∷ [])
        (tag_version_token memory_versions 5 asked manager).0)).1
    ≡ str "project=0,user=1"
unfolding tag_version_token bump_tags
bumped_token = refl

bump_tags-token_example :
    (tag_version_token memory_versions 5 asked
      (bump_tags memory_versions (str "user" ∷ []) manager)).1
    ≢ fresh_token memory_versions (str "dev") no_versions (normalize_resolved_tags asked)
bump_tags-token_example =
    bump_tags-token memory_versions 5 (str "user" ∷ []) asked (str "user") manager no_versions
      (unfold normalize_resolved_tags mem in refl) (unfold normalize_resolved_tags mem in refl)
      (λ key. omega arith)

abbrev tenant_part : UsablePart
tenant_part = record { name = str "tenant"; extract = λ r. r.role }

abbrev reading : Str → (Str → Str) → (Str → List Str) → Request
reading tenant path_param query_values = record {
  method = str "GET";
  has_principal = true;
  has_attributes = false;
  user_id = str "u1";
  role = tenant;
  path_param = path_param;
  header_values = λ name. [];
  query_values = query_values;
}

abbrev by_tenant : ReadKeyTemplate
by_tenant = record {
  route_part = [];
  method = true;
  user_id = false;
  role = false;
  parts = tenant_part ∷ [];
  path_params = [];
  query_params = [];
  headers = [];
  allow_authenticated = true;
}

abbrev no_params : Str → Str
no_params = λ name. []

abbrev no_query : Str → List Str
no_query = λ name. []

abbrev same_hash : Str → Str
same_hash = λ s. s

key_of_tenant :
    canonical same_hash (str "/x/{id}") by_tenant [] (reading (str " a|b ") no_params no_query)
    ≡ str "route=/x/{id}|method=GET|tenant=a%7Cb|auth=allowed"
unfolding canonical
key_of_tenant = refl

canonical-first_part_example : trim_space (str " a|b ") ≡ trim_space (str "a|b")
canonical-first_part_example =
    canonical-first_part same_hash (str "/x/{id}") by_tenant tenant_part [] [] []
      (reading (str " a|b ") no_params no_query) (reading (str "a|b") no_params no_query) refl refl
      (unfold trim_space in refl) (unfold trim_space in refl) (unfold canonical in refl)

abbrev varying : List Str → List Str → CacheVaryBy
varying path_params query_params = record {
  by_method = false;
  by_user_id = false;
  by_role = false;
  parts = [];
  path_params = path_params;
  query_params = query_params;
  headers = [];
}

abbrev pair_of_params : Str → Str → Str → Str
pair_of_params a b name = if name == str "a" then a else if name == str "b" then b else []

-- The values of path parameters are not escaped: two requests whose parameters differ have one key.
params_run_together :
    canonical same_hash
      (str "/x/{a}/{b}")
      (prepare_read_key_template [] false (varying (str "a" ∷ str "b" ∷ []) []))
      []
      (reading [] (pair_of_params (str "1|path.b=2") (str "3")) no_query)
    ≡ canonical same_hash
        (str "/x/{a}/{b}")
        (prepare_read_key_template [] false (varying (str "a" ∷ str "b" ∷ []) []))
        []
        (reading [] (pair_of_params (str "1") (str "2|path.b=3")) no_query)
unfolding canonical prepare_read_key_template
params_run_together = refl

-- A parameter whose name has an upper-case letter is looked up in lower case: its value is not seen.
name_is_lowered :
    canonical same_hash
      (str "/x/{projectID}")
      (prepare_read_key_template [] false (varying (str "projectID" ∷ []) []))
      []
      (reading [] (λ name. if name == str "projectID" then str "1" else []) no_query)
    ≡ canonical same_hash
        (str "/x/{projectID}")
        (prepare_read_key_template [] false (varying (str "projectID" ∷ []) []))
        []
        (reading [] (λ name. if name == str "projectID" then str "2" else []) no_query)
unfolding canonical prepare_read_key_template
name_is_lowered = refl
