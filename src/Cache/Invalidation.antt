-- ===== src/Cache/Invalidation.antt =====
-- A bumped tag changes every token that counts it.
use superapi.Prelude.{
  ℕ, ◌≤◌, ◌<◌, Str, str, ◌≡◌, ◌≢◌, refl, ap, sym, ap₂, subst, ◌∙◌, true, false, none, List, [], ◌∷◌,
  ◌++◌, ◌==◌, ==-eq, ==-refl, lookup, mem, trim_space, ltb, all, map, arith, inl, inr, Bool-cases,
  drop, append_cancel, append_assoc,
}
use superapi.Cache.Decimal.{format_int, format_int-injective, format_int-no_comma, is_not_comma}
use superapi.Cache.Token.{
  Versions, normalize_resolved_tags, tag_version_key, join, Manager, fresh_token, live_token,
  tag_token_from_cache, or_fresh, token_of, tag_version_token, bumped, bump_tags, incr_all,
}

abbrev head_byte : Str → ℕ
head_byte [] = 0
head_byte (c ∷ s) = c

-- What stands before the first comma is determined.
before_comma :
    (d e : Str) (r r' : Str)
    → all is_not_comma d ≡ true
    → all is_not_comma e ≡ true
    → d ++ b',' ∷ r ≡ e ++ b',' ∷ r'
    → (d ≡ e) × (r ≡ r')
before_comma [] [] r r' h k eq = (refl, ap (drop 1) eq)
before_comma [] (c ∷ e) r r' h k eq = ground arith
before_comma (c ∷ d) [] r r' h k eq = ground arith
before_comma (c ∷ d) (c' ∷ e) r r' h k eq =
    let (same, rest) = before_comma d e r r' (ground arith) (ground arith) (ap (drop 1) eq) in
    let first : c ≡ c' = ap head_byte eq in (ap₂ (λ x xs. x ∷ xs) first same, rest)

module _ (redis : Versions) (env : Str) where
  open redis use {Store}

  abbrev version_of : Str → Store → ℕ
  version_of tag s = redis.version (tag_version_key env tag) s

  same_version : (m n : ℕ) → format_int m ≡ format_int n → m ≡ n
  same_version m n h = format_int-injective m n h

  first_part :
      (t : Str) (m n : ℕ) (x y : Str)
      → (t ++ (str "=" ++ format_int m)) ++ b',' ∷ x ≡ (t ++ (str "=" ++ format_int n)) ++ b',' ∷ y
      → (m ≡ n) × (x ≡ y)
  first_part t m n x y h =
      let left = append_assoc t (str "=" ++ format_int m) (b',' ∷ x) in
      let right = append_assoc t (str "=" ++ format_int n) (b',' ∷ y) in
      let rest =
        append_cancel t (61 ∷ (format_int m ++ b',' ∷ x)) (61 ∷ (format_int n ++ b',' ∷ y))
          (sym left ∙ h ∙ right) in
      let (digits, later) =
        before_comma (format_int m) (format_int n) x y (format_int-no_comma m)
          (format_int-no_comma n) (ap (drop 1) rest) in
      (format_int-injective m n digits, later)

  only_part :
      (t : Str) (m n : ℕ) → t ++ (str "=" ++ format_int m) ≡ t ++ (str "=" ++ format_int n) → m ≡ n
  only_part t m n h =
      format_int-injective m n
        (ap (drop 1) (append_cancel t (61 ∷ format_int m) (61 ∷ format_int n) h))

  -- Tokens of the same tags are the same only if every version is.
  fresh_token-versions :
      (s s' : Store) (tags : List Str) (tag : Str)
      → mem tag tags ≡ true
      → fresh_token redis env s tags ≡ fresh_token redis env s' tags
      → version_of tag s ≡ version_of tag s'
  unfolding fresh_token join mem
  fresh_token-versions s s' [] tag h e = cc
  fresh_token-versions s s' (t ∷ []) tag h e =
      let same : version_of t s ≡ version_of t s' =
        only_part t (version_of t s) (version_of t s') e in
      let here : t ≡ tag = ==-eq t tag (ground arith) in
      subst (λ u. version_of u s ≡ version_of u s') here same
  fresh_token-versions s s' (t ∷ u ∷ tags) tag h e =
      let (same, rest) =
        first_part t (version_of t s) (version_of t s') (fresh_token redis env s (u ∷ tags))
          (fresh_token redis env s' (u ∷ tags)) e in
      elim (Bool-cases (t == tag)) [
        | inl yes_same ↦ subst (λ u. version_of u s ≡ version_of u s') (==-eq t tag yes_same) same
        | inr other ↦ fresh_token-versions s s' (u ∷ tags) tag (rw other at h) rest
      ]

  incr_all-grows :
      (keys : List Str) (key : Str) (s : Store)
      → redis.version key s ≤ redis.version key (incr_all redis keys s)
  unfolding incr_all
  incr_all-grows [] key s = omega arith
  incr_all-grows (k ∷ keys) key s =
      ground (arith, redis.version-incr k key s, incr_all-grows keys key (redis.incr k s))

  incr_all-bumps :
      (tags : List Str) (tag : Str) (s : Store)
      → mem tag tags ≡ true
      → version_of tag s < version_of tag (incr_all redis (map (tag_version_key env) tags) s)
  unfolding incr_all mem
  incr_all-bumps [] tag s h = cc
  incr_all-bumps (t ∷ tags) tag s h =
      let after = redis.incr (tag_version_key env t) s in
      let step = redis.version-incr (tag_version_key env t) (tag_version_key env tag) s in
      elim (Bool-cases (t == tag)) [
        | inl here ↦
            let same =
              ap (λ u. tag_version_key env u == tag_version_key env tag) (==-eq t tag here)
              ∙ ==-refl (tag_version_key env tag) in
            let grown =
              incr_all-grows (map (tag_version_key env) tags) (tag_version_key env tag) after in
            ground (arith, step, same, grown)
        | inr other ↦
            let later = incr_all-bumps tags tag after (rw other at h) in ground (arith, step, later)
      ]

module _ (redis : Versions) where
  open redis use {Store}

  -- The first token after the tags are bumped, from an empty cache.
  pub no_cached :
      (now : ℕ) (key : Str) (m : Manager redis)
      → m.tag_token_cache ≡ []
      → tag_token_from_cache redis now key m ≡ none
  unfolding tag_token_from_cache lookup
  no_cached now key m h = elim (Bool-cases (ltb 0 m.tag_token_ttl)) [
    | inr off ↦ rw off refl
    | inl on ↦ elim (Bool-cases (trim_space key == [])) [
      | inl blank ↦ rw on (rw blank refl)
      | inr given ↦ rw on (rw given (ap (λ c. live_token redis now (lookup key c)) h))
    ]
  ]

  pub token_of-fresh :
      (now : ℕ) (tags : List Str) (m : Manager redis)
      → m.tag_token_cache ≡ []
      → (token_of redis now tags m).1 ≡ fresh_token redis m.env m.store tags
  unfolding fresh_token join
  token_of-fresh now [] m h = refl
  token_of-fresh now (tag ∷ tags) m h =
      let key = join (31 ∷ []) (tag ∷ tags) in
      ap (λ o. (or_fresh redis now key (tag ∷ tags) m o).1) (no_cached now key m h)

  pub bumped-token :
      (now : ℕ) (tags asked : List Str) (tag : Str) (m : Manager redis) (s : Store)
      → mem tag tags ≡ true
      → mem tag asked ≡ true
      → ((key : Str) → redis.version key s ≤ redis.version key m.store)
      → (token_of redis now asked (bumped redis tags m)).1 ≢ fresh_token redis m.env s asked
  bumped-token now [] asked tag m s h k earlier e =
      let impossible : false ≡ true = unfold mem in h in cc
  bumped-token now (t ∷ tags) asked tag m s h k earlier e =
      let m' = bumped redis (t ∷ tags) m in
      let same =
        fresh_token-versions redis m.env m'.store s asked tag k
          (sym (token_of-fresh now asked m' refl) ∙ e) in
      let grown = incr_all-bumps redis m.env (t ∷ tags) tag m.store h in
      let before = earlier (tag_version_key m.env tag) in omega (arith, same, grown, before)

  -- After BumpTags has run its pipeline for tags of which one, once trimmed, is among the tags that
  -- are asked for: the token is not the one that these tags had at the store before, or at any
  -- earlier store, whose versions are not greater.
  pub bump_tags-token :
      (now : ℕ) (tags asked : List Str) (tag : Str) (m : Manager redis) (s : Store)
      → mem tag (normalize_resolved_tags tags) ≡ true
      → mem tag (normalize_resolved_tags asked) ≡ true
      → ((key : Str) → redis.version key s ≤ redis.version key m.store)
      → (tag_version_token redis now asked (bump_tags redis tags m)).1
        ≢ fresh_token redis m.env s (normalize_resolved_tags asked)
  unfolding tag_version_token bump_tags
  bump_tags-token now tags asked tag m s h k earlier =
      bumped-token now (normalize_resolved_tags tags) (normalize_resolved_tags asked) tag m s h k
        earlier
