-- ===== src/Cache/Store.antt =====
-- internal/core/cache/manager.go: Get and Set, the resolution of tags with an error of MGET, and the
-- key of a request. Redis is a store with versions, which holds a value until its time is over. A
-- fault of an operation is an argument of the call.
use superapi.Prelude.{
  ℕ, ◌+◌, ◌≤◌, Str, ◌≡◌, ◌⊎◌, inl, inr, Bool, true, false, not, ◌&&◌, ◌||◌, Option, none, some,
  List, [], ◌∷◌, ◌==◌, ltb, eqb, if◌then◌else◌,
}
use superapi.Prelude.Utf8.{valid_utf8}
use superapi.Cache.Token.{Versions, Manager, token_of, tag_token_from_cache, join}
use superapi.Cache.Key.{Request, ReadKeyTemplate, build_read_key_with_template}
use superapi.Cache.Tags.{TagError, PreparedTagSpec, resolve_tag_names}

pub record Redis : Type 1 where
  pub versions : Versions
  -- what GET answers at a time
  pub held : ℕ → Str → versions.Store → Option Str
  -- SET of a key to a value, at a time and for a duration
  pub put : ℕ → Str → Str → ℕ → versions.Store → versions.Store
  pub held-put :
      (now later ttl : ℕ) (key value : Str) (s : versions.Store)
      → now ≤ later
      → held later key (put now key value ttl s)
        ≡ (if ltb later (now + ttl) then some value else none)
  pub version-put :
      (now ttl : ℕ) (key value other : Str) (s : versions.Store)
      → key == other ≡ false
      → versions.version other (put now key value ttl s) ≡ versions.version other s

pub record CachedResponse : Type 0 where
  pub status : ℕ
  pub body : Str
  pub content_type : Str

-- encoding/json on cached responses; a status that is not positive is read as 0. What is not valid
-- UTF-8 in a content type is replaced, so only the others come back.
pub record Codec : Type 0 where
  pub encode : CachedResponse → Str
  pub decode : Str → Option CachedResponse
  pub decode-encode :
      (r : CachedResponse) → valid_utf8 r.content_type ≡ true → decode (encode r) ≡ some r

-- Which calls of Redis fail.
pub record Faults : Type 0 where
  pub mget : Bool
  pub get : Bool
  pub set : Bool
  pub pipeline : Bool

pub data Got : Type 0 where
  hit : CachedResponse → Got
  miss : Got
  get_failed : Got

abbrev pub decoded : Option CachedResponse → Got
decoded none = get_failed
decoded (some r) = if eqb r.status 0 then miss else hit r

abbrev pub payload_of : Codec → Option Str → Got
payload_of json none = miss
payload_of json (some payload) = decoded (json.decode payload)

module _ (redis : Redis) where
  abbrev pub Cache : Type 0
  Cache = Manager redis.versions

  unfoldable pub get_cached : Codec → Bool → ℕ → Str → Cache → Got
  get_cached json fault now key m =
      if fault then get_failed else payload_of json (redis.held now key m.store)

  abbrev pub with_store : Cache → redis.versions.Store → Cache
  with_store m s = record {
    env = m.env;
    tag_token_ttl = m.tag_token_ttl;
    tag_token_cache = m.tag_token_cache;
    store = s;
  }

  -- Set; `none` is its error.
  unfoldable pub set_cached : Codec → Bool → ℕ → Str → CachedResponse → ℕ → Cache → Option Cache
  set_cached json fault now key value ttl m =
      if eqb ttl 0 || fault
      then none
      else some (with_store m (redis.put now key (json.encode value) ttl m.store))

  abbrev is_cached : Option Str → Bool
  is_cached none = false
  is_cached (some token) = true

  -- tagVersionTokenNormalized, with the error of MGET.
  unfoldable pub token_or_fault : Bool → ℕ → List Str → Cache → Option (Cache × Str)
  unfolding tag_token_from_cache join
  token_or_fault fault now [] m = some (m, [])
  token_or_fault fault now (tag ∷ tags) m =
      if fault
        && not (is_cached (tag_token_from_cache redis.versions now (join (31 ∷ []) (tag ∷ tags)) m))
      then none
      else some (token_of redis.versions now (tag ∷ tags) m)

  abbrev pub keyed :
      (Str → Str) → Str → ReadKeyTemplate → Request → Option (Cache × Str) → Option (Cache × Str)
  keyed hash route t r none = none
  keyed hash route t r (some (m, token)) =
      some (m, build_read_key_with_template hash m.env route t token r)

  abbrev pub with_tags :
      (Str → Str)
      → Bool
      → ℕ
      → Str
      → ReadKeyTemplate
      → Request
      → Cache
      → TagError ⊎ List Str
      → Option (Cache × Str)
  with_tags hash fault now route t r m (inl e) = none
  with_tags hash fault now route t r m (inr tags) =
      keyed hash route t r (token_or_fault fault now tags m)

  -- BuildReadKeyWithTemplate: the key and the manager after it, or its error.
  unfoldable pub build_read_key :
      (Str → Str)
      → Bool
      → ℕ
      → Str
      → ReadKeyTemplate
      → List PreparedTagSpec
      → Request
      → Cache
      → Option (Cache × Str)
  unfolding build_read_key_with_template token_or_fault resolve_tag_names
  build_read_key hash fault now route t specs r m =
      with_tags hash fault now route t r m (resolve_tag_names r specs)
