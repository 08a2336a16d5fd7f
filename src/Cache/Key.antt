-- ===== src/Cache/Key.antt =====
-- internal/core/cache/manager.go: the key of a cached response. What is hashed is the canonical
-- string below; SHA-256, cut to 16 bytes in hexadecimal, is the parameter `hash`. The token of the
-- tags is an argument.
pub mod Isolation
pub mod Tagged
use superapi.Prelude.{
  ℕ, Str, String, str, Bool, true, false, not, ◌&&◌, Option, none, some, List, [], ◌∷◌, ◌++◌, ◌==◌,
  map, take, eqb, trim_space, to_lower, to_upper, sort_strings, if◌then◌else◌,
}
use superapi.Cache.Token.{distinct_from, join}
use superapi.Cache.Escape.{escape_tag_value}

-- What a key is built from. Without a principal the user and the role are empty.
pub record Request : Type 0 where
  pub method : Str
  pub has_principal : Bool
  pub has_attributes : Bool
  pub user_id : Str
  pub role : Str
  pub path_param : Str → Str
  pub header_values : Str → List Str
  pub query_values : Str → List Str

pub record KeyPart : Type 0 where
  pub name : Str
  pub identity : Bool
  pub extract : Option (Request → Str)

-- A part that has a name and an extractor.
pub record UsablePart : Type 0 where
  pub name : Str
  pub extract : Request → Str

pub record CacheVaryBy : Type 0 where
  pub by_method : Bool
  pub by_user_id : Bool
  pub by_role : Bool
  pub parts : List KeyPart
  pub path_params : List Str
  pub query_params : List Str
  pub headers : List Str

pub record ReadKeyTemplate : Type 0 where
  pub route_part : Str
  pub method : Bool
  pub user_id : Bool
  pub role : Bool
  pub parts : List UsablePart
  pub path_params : List Str
  pub query_params : List Str
  pub headers : List Str
  pub allow_authenticated : Bool

abbrev keep_part : KeyPart → Option (Request → Str) → List UsablePart → List UsablePart
keep_part p none rest = rest
keep_part p (some extract) rest =
    if trim_space p.name == [] then rest else record { name = p.name; extract = extract } ∷ rest

unfoldable pub usable_key_parts : List KeyPart → List UsablePart
unfolding trim_space ◌==◌
usable_key_parts [] = []
usable_key_parts (p ∷ ps) = keep_part p p.extract (usable_key_parts ps)

unfoldable pub normalized_names : List Str → List Str
unfolding distinct_from sort_strings to_lower
normalized_names items = sort_strings (distinct_from [] (map to_lower items))

abbrev pub space_to_underscore : ℕ → ℕ
space_to_underscore c = if eqb c 32 then 95 else c

unfoldable pub normalize_route : Str → Str
unfolding trim_space ◌==◌
normalize_route route =
    let r = trim_space route in
    if r == [] then str "unknown" else take 240 (map space_to_underscore r)

unfoldable pub prepare_read_key_template : Str → Bool → CacheVaryBy → ReadKeyTemplate
unfolding usable_key_parts normalized_names normalize_route trim_space ◌==◌
prepare_read_key_template key allow_authenticated vary = record {
  route_part = if trim_space key == [] then [] else normalize_route (trim_space key);
  method = vary.by_method;
  user_id = vary.by_user_id;
  role = vary.by_role;
  parts = usable_key_parts vary.parts;
  path_params = normalized_names vary.path_params;
  query_params = normalized_names vary.query_params;
  headers = normalized_names vary.headers;
  allow_authenticated = allow_authenticated;
}

abbrev pub bar : Str
bar = str "|"

-- A value that stands in the key only under a condition.
abbrev pub given : Bool → Str → List Str
given true value = value ∷ []
given false value = []

abbrev pub part_value : Request → UsablePart → Str
part_value r p = trim_space p.name ++ (str "=" ++ escape_tag_value (p.extract r))

abbrev pub user_value : Request → Str
user_value r = str "user=" ++ trim_space r.user_id

abbrev pub path_value : Request → Str → Str
path_value r name = str "path." ++ (name ++ (str "=" ++ trim_space (r.path_param name)))

abbrev pub header_value : Request → Str → Str
header_value r name = str "header." ++ (name ++ (str "=" ++ join (str ",") (r.header_values name)))

abbrev query_part : Request → Str → Str
query_part r name = name ++ (str "=" ++ join (str ",") (sort_strings (r.query_values name)))

abbrev or_route : Str → Str → Str
or_route route_part route = if route_part == [] then normalize_route route else route_part

-- The route part of a request's key.
unfoldable pub route_part_of : Str → ReadKeyTemplate → Str
unfolding normalize_route trim_space ◌==◌
route_part_of route t = or_route (trim_space t.route_part) route

module _ (hash : Str → Str) where
  abbrev query_hash_of : Request → List Str → Str
  query_hash_of r [] = []
  query_hash_of r (name ∷ names) = hash (join (str "&") (map (query_part r) (name ∷ names)))

  unfoldable pub query_param_hash_selected : Request → List Str → Str
  unfolding join sort_strings
  query_param_hash_selected r selected = query_hash_of r selected

  unfoldable pub values_after_parts : ReadKeyTemplate → Str → Request → List Str
  unfolding query_param_hash_selected join trim_space ◌==◌
  values_after_parts t tag_token r =
      let query_hash = query_param_hash_selected r t.query_params in
      given t.user_id (user_value r)
      ++ (given t.role (str "role=" ++ trim_space r.role)
          ++ (map (path_value r) t.path_params
              ++ (map (header_value r) t.headers
                  ++ (given (not (query_hash == [])) (str "query_hash=" ++ query_hash)
                      ++ (given (r.has_principal && t.allow_authenticated) (str "auth=allowed")
                          ++ given (not (tag_token == [])) (str "tags=" ++ tag_token))))))

  unfoldable pub key_values : Str → ReadKeyTemplate → Str → Request → List Str
  unfolding values_after_parts escape_tag_value to_upper trim_space
  key_values route_part t tag_token r =
      (str "route=" ++ route_part)
      ∷ (given t.method (str "method=" ++ to_upper (trim_space r.method))
          ++ (map (part_value r) t.parts ++ values_after_parts t tag_token r))

  unfoldable pub canonical : Str → ReadKeyTemplate → Str → Request → Str
  unfolding key_values route_part_of join
  canonical route t tag_token r = join bar (key_values (route_part_of route t) t tag_token r)

  unfoldable pub build_read_key_with_template : Str → Str → ReadKeyTemplate → Str → Request → Str
  unfolding canonical route_part_of
  build_read_key_with_template env route t tag_token r =
      str "cache:"
      ++ (env
          ++ (str ":"
              ++ (route_part_of route t ++ (str ":" ++ hash (canonical route t tag_token r)))))
