-- ===== src/Cache/Key/Isolation.antt =====
-- Responses of different identities have different keys, up to the hash.
use superapi.Prelude.{
  ℕ, Str, str, ◌≡◌, refl, ap, ap₂, sym, ◌∙◌, Bool, true, false, List, [], ◌∷◌, ◌++◌, map, all, drop,
  trim_space, to_upper, arith, append_cancel, append_assoc, append_nil,
}
use superapi.Cache.Token.{join}
use superapi.Cache.Escape.{
  escape_tag_value, escape_tag_value-no_bar, escape_tag_value-injective, is_not_bar, is_byte,
}
use superapi.Cache.Key.{
  Request, UsablePart, ReadKeyTemplate, bar, given, part_value, values_after_parts, key_values,
  route_part_of, canonical,
}

abbrev head_byte : Str → ℕ
head_byte [] = 0
head_byte (c ∷ s) = c

-- What stands behind the first of the joined values.
abbrev tail_of : List Str → Str
tail_of [] = []
tail_of (v ∷ vs) = b'|' ∷ join bar (v ∷ vs)

join-tail_of : (v : Str) (vs : List Str) → join bar (v ∷ vs) ≡ v ++ tail_of vs
unfolding join
join-tail_of v [] = sym (append_nil v)
join-tail_of v (w ∷ vs) = refl

join_cancel :
    (v : Str) (vs ws : List Str) → join bar (v ∷ vs) ≡ join bar (v ∷ ws) → tail_of vs ≡ tail_of ws
join_cancel v vs ws h =
    append_cancel v (tail_of vs) (tail_of ws) (sym (join-tail_of v vs) ∙ h ∙ join-tail_of v ws)

tail_cancel :
    (v w : Str) (vs ws : List Str)
    → tail_of (v ∷ vs) ≡ tail_of (w ∷ ws)
    → join bar (v ∷ vs) ≡ join bar (w ∷ ws)
tail_cancel v w vs ws h = ap (drop 1) h

before_bar :
    (d e : Str) (vs ws : List Str)
    → all is_not_bar d ≡ true
    → all is_not_bar e ≡ true
    → d ++ tail_of vs ≡ e ++ tail_of ws
    → d ≡ e
before_bar [] [] vs ws h k eq = refl
before_bar [] (c ∷ e) [] ws h k eq = cc
before_bar [] (c ∷ e) (v ∷ vs) ws h k eq =
    let same : ◌≡◌ {A = ℕ} b'|' c = ap head_byte eq in ground arith
before_bar (c ∷ d) [] vs [] h k eq = cc
before_bar (c ∷ d) [] vs (w ∷ ws) h k eq =
    let same : ◌≡◌ {A = ℕ} c b'|' = ap head_byte eq in ground arith
before_bar (c ∷ d) (c' ∷ e) vs ws h k eq =
    ap₂ (λ x xs. x ∷ xs) (ap head_byte eq)
      (before_bar d e vs ws (ground arith) (ground arith) (ap (drop 1) eq))

-- Equal joined values that begin with the same name.
named_value :
    (name d e : Str) (vs ws : List Str)
    → all is_not_bar d ≡ true
    → all is_not_bar e ≡ true
    → join bar ((name ++ (str "=" ++ d)) ∷ vs) ≡ join bar ((name ++ (str "=" ++ e)) ∷ ws)
    → d ≡ e
named_value name d e vs ws h k eq =
    let left = sym (append_assoc name (b'=' ∷ d) (tail_of vs)) in
    let right = append_assoc name (b'=' ∷ e) (tail_of ws) in
    let flat =
      sym (join-tail_of (name ++ (b'=' ∷ d)) vs) ∙ eq ∙ join-tail_of (name ++ (b'=' ∷ e)) ws in
    before_bar d e vs ws h k (
      ap (drop 1) (
        append_cancel name (b'=' ∷ (d ++ tail_of vs)) (b'=' ∷ (e ++ tail_of ws))
          (left ∙ flat ∙ right)))

-- The same conditional value in front is cancelled.
given_cancel :
    (on : Bool) (v a b : Str) (vs ws : List Str)
    → tail_of (given on v ++ a ∷ vs) ≡ tail_of (given on v ++ b ∷ ws)
    → join bar (a ∷ vs) ≡ join bar (b ∷ ws)
given_cancel false v a b vs ws h = ap (drop 1) h
given_cancel true v a b vs ws h = ap (drop 1) (join_cancel v (a ∷ vs) (b ∷ ws) (ap (drop 1) h))

module _ (hash : Str → Str) (route : Str) (t : ReadKeyTemplate) where
  -- Two requests on one route with one method, whose values for the first part are strings of bytes:
  -- if what is hashed is the same, so are the trimmed values, whatever the two requests' principals,
  -- parameters, headers and tag tokens are.
  pub canonical-first_part :
      (p : UsablePart) (ps : List UsablePart) (token token' : Str) (r r' : Request)
      → t.parts ≡ p ∷ ps
      → r.method ≡ r'.method
      → all is_byte (trim_space (p.extract r)) ≡ true
      → all is_byte (trim_space (p.extract r')) ≡ true
      → canonical hash route t token r ≡ canonical hash route t token' r'
      → trim_space (p.extract r) ≡ trim_space (p.extract r')
  unfolding canonical key_values
  canonical-first_part p ps token token' r r' parts method bytes bytes' h =
      let first = str "route=" ++ route_part_of route t in
      let by_method = λ (m : Str). given t.method (str "method=" ++ to_upper (trim_space m)) in
      let rest = map (part_value r) ps ++ values_after_parts hash t token r in
      let rest' = map (part_value r') ps ++ values_after_parts hash t token' r' in
      let left : join bar (first ∷ (by_method r'.method ++ part_value r p ∷ rest))
          ≡ canonical hash route t token r =
        ap (λ m. join bar (first ∷ (by_method m ++ part_value r p ∷ rest))) (sym method)
        ∙ ap
            (λ q. join bar (
              first
              ∷ (by_method r.method
                  ++ (map (part_value r) q ++ values_after_parts hash t token r))))
            (sym parts) in
      let right : canonical hash route t token' r'
          ≡ join bar (first ∷ (by_method r'.method ++ part_value r' p ∷ rest')) =
        ap
          (λ q. join bar (
            first
            ∷ (by_method r'.method
                ++ (map (part_value r') q ++ values_after_parts hash t token' r'))))
          parts in
      let behind =
        join_cancel first (by_method r'.method ++ part_value r p ∷ rest)
          (by_method r'.method ++ part_value r' p ∷ rest') (left ∙ h ∙ right) in
      let from_part =
        given_cancel t.method (str "method=" ++ to_upper (trim_space r'.method)) (part_value r p)
          (part_value r' p) rest rest' behind in
      escape_tag_value-injective (p.extract r) (p.extract r') (
        named_value (trim_space p.name) (escape_tag_value (p.extract r))
          (escape_tag_value (p.extract r')) rest rest' (escape_tag_value-no_bar (p.extract r) bytes)
          (escape_tag_value-no_bar (p.extract r') bytes') from_part)
