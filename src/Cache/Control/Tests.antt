-- ===== src/Cache/Control/Tests.antt =====
-- Cache-Control and Vary of a route, and the theorem at them.
use superapi.Prelude.{Str, str, ◌≡◌, refl, true, false, all, List, [], ◌∷◌, inl, inr}
use superapi.Prelude.Integer.{pos}
use superapi.Cache.Control.{
  CacheControlConfig, Headers, build_cache_control, cache_control, no_store_combined,
}
use superapi.Cache.Control.Twice.{is_covered, cache_control-twice}

abbrev config : CacheControlConfig
config = record {
  is_public = true;
  is_private = false;
  no_store = false;
  no_cache = false;
  must_revalidate = true;
  immutable = false;
  max_age = pos 61999999999;
  shared_max_age = pos 0;
  stale_while_revalidate = pos 0;
  stale_if_error = pos 0;
  vary = str "Origin" ∷ str "Accept" ∷ str "accept" ∷ [];
}

abbrev before : Headers
before = record { cache_control = []; vary = str "Cookie, origin" ∷ [] }

abbrev directives : Str
directives = str "public, max-age=61, must-revalidate"

abbrev names : List Str
names = str "Origin" ∷ str "Accept" ∷ []

accepted : build_cache_control config ≡ inr (directives, names)
unfolding build_cache_control
accepted = refl

headers_after :
    cache_control (directives, names) before
    ≡ record { cache_control = directives ∷ []; vary = str "Cookie, origin" ∷ str "Accept" ∷ [] }
unfolding cache_control
headers_after = refl

cache_control-twice_example :
    (all (is_covered (cache_control (directives, names) before).vary) config.vary ≡ true)
    × (cache_control (directives, names) (cache_control (directives, names) before)
        ≡ cache_control (directives, names) before)
cache_control-twice_example = cache_control-twice config (directives, names) before accepted refl

refused : build_cache_control (record config { no_store = true }) ≡ inl no_store_combined
unfolding build_cache_control
refused = refl
