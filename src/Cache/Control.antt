-- ===== src/Cache/Control.antt =====
-- internal/core/policy/cachecontrol.go. Durations are nanoseconds. Of the response headers only the
-- two that the policy writes are kept.
pub mod Vary
pub mod Twice
mod Tests
use superapi.Prelude.{
  ℕ, Str, str, String, ◌⊎◌, inl, inr, Bool, true, false, not, ◌&&◌, ◌||◌, List, [], ◌∷◌, ◌++◌, ◌==◌,
  ◌/◌, any, mem, trim_space, to_lower, equal_fold, if◌then◌else◌,
}
use superapi.Prelude.Float.{whole_seconds}
use superapi.Prelude.Integer.{ℤ, pos, negsuc, is_negative, is_positive}
use superapi.Prelude.Pieces.{split_byte}
use superapi.Cache.Decimal.{format_int}
use superapi.Cache.Token.{join}

pub record CacheControlConfig : Type 0 where
  pub is_public : Bool
  pub is_private : Bool
  pub no_store : Bool
  pub no_cache : Bool
  pub must_revalidate : Bool
  pub immutable : Bool
  pub max_age : ℤ
  pub shared_max_age : ℤ
  pub stale_while_revalidate : ℤ
  pub stale_if_error : ℤ
  pub vary : List Str

pub data CacheControlError : Type 0 where
  negative_duration public_and_private no_store_combined nothing_set : CacheControlError

-- A directive that stands only under a condition.
abbrev directive_if : Bool → Str → List Str
directive_if true d = d ∷ []
directive_if false d = []

unfoldable seconds : ℤ → Str
unfolding format_int whole_seconds
seconds (pos n) = format_int (whole_seconds n)
seconds (negsuc n) = []

-- Trimmed, without blanks, and without those that differ from an earlier one in case only.
unfoldable pub headers_from : List Str → List Str → List Str
unfolding trim_space to_lower mem ◌==◌
headers_from seen [] = []
headers_from seen (item ∷ items) =
    let trimmed = trim_space item in
    let passed_over = headers_from seen items in
    let taken = headers_from (to_lower trimmed ∷ seen) items in
    if trimmed == []
    then passed_over
    else if mem (to_lower trimmed) seen
    then passed_over
    else trimmed ∷ taken

unfoldable pub normalize_header_list : List Str → List Str
unfolding headers_from
normalize_header_list items = headers_from [] items

-- The directives, in the order they are written.
unfoldable pub directives_of : CacheControlConfig → List Str
unfolding seconds
directives_of c =
    directive_if c.is_public (str "public")
    ++ (directive_if c.is_private (str "private")
        ++ (directive_if c.no_store (str "no-store")
            ++ (directive_if c.no_cache (str "no-cache")
                ++ (directive_if (is_positive c.max_age && not c.no_store)
                      (str "max-age=" ++ seconds c.max_age)
                    ++ (directive_if (is_positive c.shared_max_age && not c.no_store)
                          (str "s-maxage=" ++ seconds c.shared_max_age)
                        ++ (directive_if (is_positive c.stale_while_revalidate && not c.no_store)
                              (str "stale-while-revalidate=" ++ seconds c.stale_while_revalidate)
                            ++ (directive_if (is_positive c.stale_if_error && not c.no_store)
                                  (str "stale-if-error=" ++ seconds c.stale_if_error)
                                ++ (directive_if c.must_revalidate (str "must-revalidate")
                                    ++ directive_if (c.immutable && not c.no_store)
                                        (str "immutable")))))))))

abbrev pub or_nothing_set : List Str → List Str → CacheControlError ⊎ (Str × List Str)
or_nothing_set [] [] = inl nothing_set
or_nothing_set [] (v ∷ vary) = inr ([], v ∷ vary)
or_nothing_set (d ∷ directives) vary = inr (join (str ", ") (d ∷ directives), vary)

-- The value of Cache-Control and those of Vary, or the panic of the route.
unfoldable pub build_cache_control : CacheControlConfig → CacheControlError ⊎ (Str × List Str)
unfolding directives_of normalize_header_list join
build_cache_control c =
    if is_negative c.max_age
      || is_negative c.shared_max_age
      || is_negative c.stale_while_revalidate
      || is_negative c.stale_if_error
    then inl negative_duration
    else if c.is_public && c.is_private
    then inl public_and_private
    else if c.no_store
        && (is_positive c.max_age
            || is_positive c.shared_max_age
            || c.immutable
            || is_positive c.stale_while_revalidate
            || is_positive c.stale_if_error)
    then inl no_store_combined
    else or_nothing_set (directives_of c) (normalize_header_list c.vary)

pub record Headers : Type 0 where
  pub cache_control : List Str
  pub vary : List Str

-- Some value of Vary has the name among its names.
unfoldable pub varies : Str → List Str → Bool
unfolding split_byte equal_fold trim_space
varies value existing =
    any (λ current. any (λ part. equal_fold (trim_space part) value) (split_byte b',' current))
      existing

unfoldable pub append_vary_header : Str → List Str → List Str
unfolding varies
append_vary_header value existing =
    if varies value existing then existing else existing ++ value ∷ []

unfoldable pub append_vary_headers : List Str → List Str → List Str
unfolding append_vary_header
append_vary_headers [] existing = existing
append_vary_headers (v ∷ vary) existing = append_vary_headers vary (append_vary_header v existing)

-- What CacheControl does to the headers before the handler runs.
unfoldable pub cache_control : Str × List Str → Headers → Headers
unfolding append_vary_headers ◌==◌
cache_control (directive, vary) h = record {
  cache_control = if directive == [] then h.cache_control else directive ∷ [];
  vary = append_vary_headers vary h.vary;
}
