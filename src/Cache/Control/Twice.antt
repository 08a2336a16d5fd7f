-- ===== src/Cache/Control/Twice.antt =====
-- CacheControl run twice, for a group of routes and for a route of it, is CacheControl run once.
use superapi.Prelude.{
  Str, ◌≡◌, ◌⊎◌, refl, ap, sym, ◌∙◌, Bool, true, false, ◌&&◌, ◌||◌, List, [], ◌∷◌, ◌==◌, ==-eq, any,
  all, trim_space, trim_space-plain, to_lower, equal_fold, if◌then◌else◌, inl, inr, and_split,
  arith, Bool-cases, subst, mem,
}
use superapi.Prelude.Pieces.{split_byte}
use superapi.Cache.Control.{
  CacheControlConfig, CacheControlError, negative_duration, public_and_private, no_store_combined,
  build_cache_control, or_nothing_set, directives_of, headers_from, normalize_header_list, Headers,
  varies, append_vary_headers, cache_control,
}
use superapi.Cache.Control.Vary.{
  is_name, is_name-plain, all_vary, append_vary_headers-varies, append_vary_headers-same,
}

headers_from-are_names :
    (seen items : List Str)
    → all is_name items ≡ true
    → all is_name (headers_from seen items) ≡ true
unfolding headers_from
headers_from-are_names seen [] h = refl
headers_from-are_names seen (item ∷ items) h =
    let (first, rest) = and_split (is_name item) (all is_name items) h in
    let trimmed = trim_space-plain item (is_name-plain item first) in
    let kept = ap is_name trimmed ∙ first in
    ground (
      arith,
      kept,
      headers_from-are_names seen items rest,
      headers_from-are_names (to_lower (trim_space item) ∷ seen) items rest,
    )

abbrev Built : Type 0
Built = CacheControlError ⊎ (Str × List Str)

-- A test that has not refused.
past :
    (b : Bool) (e : CacheControlError) (rest : Built) (accepted : Str × List Str)
    → (if b then inl e else rest) ≡ inr accepted
    → rest ≡ inr accepted
past true e rest accepted h = ground arith
past false e rest accepted h = h

abbrev vary_or : List Str → Built → List Str
vary_or d (inl e) = d
vary_or d (inr (directives, vary)) = vary

or_nothing_set-vary :
    (ds vs : List Str) (accepted : Str × List Str)
    → or_nothing_set ds vs ≡ inr accepted
    → accepted.1 ≡ vs
or_nothing_set-vary [] [] accepted h = ground arith
or_nothing_set-vary [] (v ∷ vs) accepted h = sym (ap (vary_or []) h)
or_nothing_set-vary (d ∷ ds) vs accepted h = sym (ap (vary_or []) h)

build_cache_control-vary :
    (c : CacheControlConfig) (accepted : Str × List Str)
    → build_cache_control c ≡ inr accepted
    → accepted.1 ≡ normalize_header_list c.vary
unfolding build_cache_control
build_cache_control-vary c accepted h =
    or_nothing_set-vary (directives_of c) (normalize_header_list c.vary) accepted (
      past _ no_store_combined _ accepted
        (past _ public_and_private _ accepted (past _ negative_duration _ accepted h)))

set_twice :
    (directive : Str) (old : List Str)
    → (if directive == []
        then (if directive == [] then old else directive ∷ [])
        else directive ∷ [])
      ≡ (if directive == [] then old else directive ∷ [])
unfolding ◌==◌
set_twice [] old = refl
set_twice (c ∷ directive) old = refl

abbrev headers : List Str → List Str → Headers
headers c v = record { cache_control = c; vary = v }

headers_same : {a b v w : List Str} → a ≡ b → v ≡ w → headers a v ≡ headers b w
headers_same e k = rw (e, k) refl

-- Some value of Vary has a name that is this one in lower case.
abbrev varies_low : Str → List Str → Bool
varies_low low h =
    any (λ current. any (λ part. to_lower (trim_space part) == low) (split_byte b',' current)) h

varies-low : (v : Str) (h : List Str) → varies v h ≡ varies_low (to_lower v) h
unfolding varies equal_fold
varies-low v h = refl

abbrev all_low : List Str → List Str → Bool
all_low lows h = all (λ low. varies_low low h) lows

mem_low :
    (low : Str) (lows h : List Str)
    → all_low lows h ≡ true
    → mem low lows ≡ true
    → varies_low low h ≡ true
unfolding mem
mem_low low [] h k m = ground arith
mem_low low (l ∷ lows) h k m =
    let (first, rest) = and_split (varies_low l h) (all_low lows h) k in
    elim (Bool-cases (l == low)) [
      | inl same ↦ subst (λ x. varies_low x h ≡ true) (==-eq l low same) first
      | inr other ↦ mem_low low lows h rest (rw other at m)
    ]

-- The name is empty, or among the names of Vary.
abbrev pub is_covered : List Str → Str → Bool
is_covered h v = v == [] || varies v h

conj : (a b : Bool) → a ≡ true → b ≡ true → a && b ≡ true
conj a b h k = rw (h, k) refl

blank_covered : (v : Str) (h : List Str) → v == [] ≡ true → is_covered h v ≡ true
blank_covered v h e = rw e refl

varies-covered : (v : Str) (h : List Str) → varies v h ≡ true → is_covered h v ≡ true
varies-covered v h e = ground (arith, e)

-- Where the names that are kept, and those seen before, are in Vary, so is every name of the list.
headers_from-covered :
    (seen items h : List Str)
    → all is_name items ≡ true
    → all_low seen h ≡ true
    → all_vary (headers_from seen items) h ≡ true
    → all (is_covered h) items ≡ true
unfolding headers_from
headers_from-covered seen [] h names before k = refl
headers_from-covered seen (item ∷ items) h names before k =
    let (first, rest) = and_split (is_name item) (all is_name items) names in
    let t = trim_space item in
    let trimmed = trim_space-plain item (is_name-plain item first) in
    let covered : is_covered h t ≡ true → is_covered h item ≡ true =
      λ e. subst (λ x. is_covered h x ≡ true) trimmed e in
    elim (Bool-cases (t == [])) [
      | inl blank ↦
          conj _ _ (covered (blank_covered t h blank))
            (headers_from-covered seen items h rest before (rw blank at k))
      | inr given ↦ elim (Bool-cases (mem (to_lower t) seen)) [
        | inl old ↦
            conj _ _
              (covered
                (varies-covered t h (varies-low t h ∙ mem_low (to_lower t) seen h before old)))
              (headers_from-covered seen items h rest before (rw (given, old) at k))
        | inr new ↦
            let kept =
              and_split (varies t h) (all_vary (headers_from (to_lower t ∷ seen) items) h)
                (rw (given, new) at k) in
            conj _ _ (covered (varies-covered t h kept.0)) (
              headers_from-covered (to_lower t ∷ seen) items h rest
                (conj _ _ (sym (varies-low t h) ∙ kept.0) before) kept.1)
      ]
    ]

-- A configuration that the policy accepts, whose names for Vary are of printable bytes other than
-- commas: after it has run, every name of the configuration that is not empty is, in whatever case,
-- among the names of Vary, and if it runs again on the headers then, it changes nothing.
pub cache_control-twice :
    (c : CacheControlConfig) (accepted : Str × List Str) (h : Headers)
    → build_cache_control c ≡ inr accepted
    → all is_name c.vary ≡ true
    → (all (is_covered (cache_control accepted h).vary) c.vary ≡ true)
      × (cache_control accepted (cache_control accepted h) ≡ cache_control accepted h)
unfolding cache_control normalize_header_list
cache_control-twice c (directive, vary) h built names =
    let are_names =
      ap (all is_name) (build_cache_control-vary c (directive, vary) built)
      ∙ headers_from-are_names [] c.vary names in
    let present = append_vary_headers-varies vary h.vary are_names in
    let kept = build_cache_control-vary c (directive, vary) built in
    (
      headers_from-covered [] c.vary (append_vary_headers vary h.vary) names refl
          (subst (λ vs. all_vary vs (append_vary_headers vary h.vary) ≡ true) kept present),
      headers_same (set_twice directive h.cache_control)
          (append_vary_headers-same vary (append_vary_headers vary h.vary) present),
    )
