-- ===== src/Cache/Tags.antt =====
-- internal/core/cache/manager.go: the specifications of tags, their normal form and the names that a
-- request gives them; internal/core/policy/cache.go: their validation. sort.Slice may leave
-- specifications of one key in any order; here they keep theirs.
use superapi.Prelude.{
  ℕ, Str, str, Bool, true, false, not, ◌&&◌, ◌||◌, ◌⊎◌, inl, inr, Option, none, some, List, [], ◌∷◌,
  ◌++◌, ◌==◌, map, take, all, leb, eqb, trim_space, to_lower, str_lt, sort_strings, if◌then◌else◌,
}
use superapi.Cache.Token.{join, normalize_resolved_tags}
use superapi.Cache.Escape.{escape_tag_value}
use superapi.Cache.Key.{Request, KeyPart, UsablePart, normalized_names, space_to_underscore}

pub record CacheTagLiteral : Type 0 where
  pub key : Str
  pub value : Str

pub record CacheTagSpec : Type 0 where
  pub name : Str
  pub path_params : List Str
  pub user_id : Bool
  pub parts : List KeyPart
  pub literals : List CacheTagLiteral

-- A specification in normal form, whose parts have names and extractors.
pub record PreparedTagSpec : Type 0 where
  pub name : Str
  pub path_params : List Str
  pub user_id : Bool
  pub parts : List UsablePart
  pub literals : List CacheTagLiteral

-- sort.SliceStable
module _ {A : Type 0} (less : A → A → Bool) where
  unfoldable pub insert_stable : A → List A → List A
  insert_stable x [] = x ∷ []
  insert_stable x (y ∷ ys) =
      let behind = insert_stable x ys in if less y x then y ∷ behind else x ∷ y ∷ ys

  unfoldable pub sort_stable : List A → List A
  unfolding insert_stable
  sort_stable [] = []
  sort_stable (x ∷ xs) = insert_stable x (sort_stable xs)

-- The elements whose key is not that of the last one kept.
unfoldable pub dedup_from : {A : Type 0} → (A → Str) → Str → List A → List A
unfolding ◌==◌
dedup_from key last [] = []
dedup_from key last (x ∷ xs) =
    let repeated = dedup_from key last xs in
    let kept = dedup_from key (key x) xs in if key x == last then repeated else x ∷ kept

unfoldable pub normalize_tag_name : Str → Str
unfolding trim_space to_lower
normalize_tag_name name = take 120 (map space_to_underscore (trim_space (to_lower name)))

abbrev named_part : Str → Option (Request → Str) → List UsablePart → List UsablePart
named_part name none rest = rest
named_part name (some extract) rest =
    if name == [] then rest else record { name = name; extract = extract } ∷ rest

unfoldable pub named_parts : List KeyPart → List UsablePart
unfolding trim_space ◌==◌
named_parts [] = []
named_parts (p ∷ ps) = named_part (trim_space p.name) p.extract (named_parts ps)

-- Names are not empty, so the first part is kept.
unfoldable pub normalize_tag_parts : List KeyPart → List UsablePart
unfolding named_parts sort_stable dedup_from str_lt
normalize_tag_parts parts =
    dedup_from (λ p. p.name) [] (sort_stable (λ p q. str_lt p.name q.name) (named_parts parts))

abbrev literal_key : CacheTagLiteral → Str
literal_key l = l.key ++ (b'=' ∷ l.value)

abbrev literal_less : CacheTagLiteral → CacheTagLiteral → Bool
literal_less l m = if l.key == m.key then str_lt l.value m.value else str_lt l.key m.key

unfoldable pub usable_literals : List CacheTagLiteral → List CacheTagLiteral
unfolding trim_space to_lower ◌==◌
usable_literals [] = []
usable_literals (l ∷ ls) =
    let rest = usable_literals ls in
    let key = trim_space (to_lower l.key) in
    let value = trim_space l.value in
    if key == [] || value == [] then rest else record { key = key; value = value } ∷ rest

unfoldable pub normalize_tag_literals : List CacheTagLiteral → List CacheTagLiteral
unfolding usable_literals sort_stable dedup_from str_lt ◌==◌
normalize_tag_literals literals =
    dedup_from literal_key [] (sort_stable literal_less (usable_literals literals))

unfoldable pub tag_spec_key : PreparedTagSpec → Str
unfolding join
tag_spec_key spec = join (str "|") (
    spec.name
    ∷ (map (λ p. str "path." ++ p) spec.path_params
        ++ (map (λ p. str "part." ++ p.name) spec.parts
            ++ ((if spec.user_id then str "user" ∷ [] else [])
                ++ map (λ l. str "lit." ++ literal_key l) spec.literals))))

unfoldable pub named_specs : List CacheTagSpec → List PreparedTagSpec
unfolding normalize_tag_name normalized_names normalize_tag_parts normalize_tag_literals ◌==◌
named_specs [] = []
named_specs (s ∷ specs) =
    let rest = named_specs specs in
    let name = normalize_tag_name s.name in
    if name == []
    then rest
    else record {
      name = name;
      path_params = normalized_names s.path_params;
      user_id = s.user_id;
      parts = normalize_tag_parts s.parts;
      literals = normalize_tag_literals s.literals;
    }
      ∷ rest

unfoldable pub normalize_tag_specs : List CacheTagSpec → List PreparedTagSpec
unfolding named_specs sort_stable dedup_from tag_spec_key str_lt
normalize_tag_specs specs =
    dedup_from tag_spec_key []
      (sort_stable (λ s t. str_lt (tag_spec_key s) (tag_spec_key t)) (named_specs specs))

-- Why a request gives no tag: the parameter or part, and the tag.
pub data TagError : Type 0 where
  missing_path_param : Str → Str → TagError
  missing_part : Str → Str → TagError
  missing_user_id : Str → TagError

abbrev pub and_values : {A : Type 0} → TagError ⊎ A → (A → TagError ⊎ A) → TagError ⊎ A
and_values (inl e) f = inl e
and_values (inr a) f = f a

-- A value that must not be blank, under its label, before the values that follow.
abbrev required : TagError → Str → Str → TagError ⊎ List Str → TagError ⊎ List Str
required missing label value rest =
    if trim_space value == []
    then inl missing
    else and_values rest
        (λ values. inr ((label ++ (b'=' ∷ escape_tag_value (trim_space value))) ∷ values))

abbrev literal_values : List CacheTagLiteral → List Str
literal_values = map (λ l. str "lit." ++ (l.key ++ (b'=' ∷ escape_tag_value l.value)))

abbrev user_tag_values : Request → PreparedTagSpec → TagError ⊎ List Str
user_tag_values r spec =
    if spec.user_id
    then required (missing_user_id spec.name) (str "user") r.user_id
        (inr (literal_values spec.literals))
    else inr (literal_values spec.literals)

unfoldable pub part_tag_values : Request → PreparedTagSpec → List UsablePart → TagError ⊎ List Str
unfolding trim_space ◌==◌ escape_tag_value
part_tag_values r spec [] = user_tag_values r spec
part_tag_values r spec (p ∷ ps) =
    required (missing_part p.name spec.name) p.name (p.extract r) (part_tag_values r spec ps)

unfoldable pub path_tag_values : Request → PreparedTagSpec → List Str → TagError ⊎ List Str
unfolding part_tag_values trim_space ◌==◌ escape_tag_value
path_tag_values r spec [] = part_tag_values r spec spec.parts
path_tag_values r spec (p ∷ ps) =
    required (missing_path_param p spec.name) (str "path." ++ p) (r.path_param p)
      (path_tag_values r spec ps)

abbrev tag_of_values : Str → List Str → Str
tag_of_values name [] = name
tag_of_values name (v ∷ vs) = name ++ (b'|' ∷ join (str "|") (sort_strings (v ∷ vs)))

abbrev named_tag : Str → TagError ⊎ List Str → TagError ⊎ Str
named_tag name (inl e) = inl e
named_tag name (inr values) = inr (tag_of_values name values)

unfoldable pub resolve_tag_name : Request → PreparedTagSpec → TagError ⊎ Str
unfolding path_tag_values sort_strings join ◌==◌
resolve_tag_name r spec =
    if spec.name == []
    then inr []
    else named_tag spec.name (path_tag_values r spec spec.path_params)

abbrev tag_then : TagError ⊎ Str → TagError ⊎ List Str → TagError ⊎ List Str
tag_then (inl e) rest = inl e
tag_then (inr tag) rest = and_values rest (λ tags. inr (if tag == [] then tags else tag ∷ tags))

unfoldable pub resolve_each : Request → List PreparedTagSpec → TagError ⊎ List Str
unfolding resolve_tag_name ◌==◌
resolve_each r [] = inr []
resolve_each r (s ∷ specs) = tag_then (resolve_tag_name r s) (resolve_each r specs)

abbrev in_normal_form : TagError ⊎ List Str → TagError ⊎ List Str
in_normal_form (inl e) = inl e
in_normal_form (inr tags) = inr (normalize_resolved_tags tags)

unfoldable pub resolve_tag_names : Request → List PreparedTagSpec → TagError ⊎ List Str
unfolding resolve_each normalize_resolved_tags
resolve_tag_names r specs = in_normal_form (resolve_each r specs)

-- KeyPart.Validate and validateCacheTagSpecs: `true` is no error.
abbrev key_part_byte : ℕ → Bool
key_part_byte c =
    leb b'a' c && leb c b'z'
    || leb b'A' c && leb c b'Z'
    || leb b'0' c && leb c b'9'
    || eqb c b'_'
    || eqb c b'-'
    || eqb c b'.'

abbrev has_extractor : Option (Request → Str) → Bool
has_extractor none = false
has_extractor (some e) = true

unfoldable pub key_part_is_valid : KeyPart → Bool
unfolding trim_space ◌==◌
key_part_is_valid p =
    not (trim_space p.name == [])
    && all key_part_byte (trim_space p.name)
    && has_extractor p.extract

abbrev spec_is_valid : CacheTagSpec → Bool
spec_is_valid s =
    not (trim_space s.name == [])
    && all (λ p. not (trim_space p == [])) s.path_params
    && all key_part_is_valid s.parts
    && all (λ l. not (trim_space l.key == []) && not (trim_space l.value == [])) s.literals

unfoldable pub tag_specs_are_valid : Bool → List CacheTagSpec → Bool
unfolding trim_space ◌==◌ key_part_is_valid
tag_specs_are_valid require_at_least_one [] = not require_at_least_one
tag_specs_are_valid require_at_least_one (s ∷ specs) = all spec_is_valid (s ∷ specs)
