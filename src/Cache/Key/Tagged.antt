-- ===== src/Cache/Key/Tagged.antt =====
-- The token of the tags stands last in the canonical string of a key, so the string determines it.
use mathlib.Core.List.{append_assoc}
use superapi.Prelude.{
  Str, str, ◌≡◌, refl, ap, sym, ◌∙◌, not, ◌&&◌, List, [], ◌∷◌, ◌++◌, ◌==◌, map, drop, append_cancel,
  append_nil, trim_space, to_upper,
}
use superapi.Cache.Token.{join}
use superapi.Cache.Key.{
  Request, ReadKeyTemplate, bar, given, part_value, user_value, path_value, header_value,
  query_param_hash_selected, key_values, values_after_parts, route_part_of, canonical,
}

-- join puts the last value at the end.
join-last :
    (first : Str) (values : List Str) (last : Str)
    → join bar (first ∷ (values ++ last ∷ [])) ≡ join bar (first ∷ values) ++ (bar ++ last)
unfolding join
join-last first [] last = refl
join-last first (v ∷ values) last =
    ap (λ s. first ++ (bar ++ s)) (join-last v values last)
    ∙ sym (append_assoc first (bar ++ join bar (v ∷ values)) (bar ++ last))

to_the_end :
    (a b c d e f g h last : List Str)
    → a ++ (b ++ (c ++ (d ++ (e ++ (f ++ (g ++ (h ++ last)))))))
      ≡ (a ++ (b ++ (c ++ (d ++ (e ++ (f ++ (g ++ h))))))) ++ last
to_the_end a b c d e f g h last = simp append_assoc

abbrev tags_value : Str → List Str
tags_value token = given (not (token == [])) (str "tags=" ++ token)

no_more : (values : List Str) → values ++ [] ≡ values
no_more [] = refl
no_more (v ∷ values) = ap (λ vs. v ∷ vs) (no_more values)

-- What a token adds to the string.
abbrev ending : Str → Str
ending [] = []
ending (c ∷ token) = bar ++ (str "tags=" ++ c ∷ token)

join-tags_value :
    (first : Str) (values : List Str) (token : Str)
    → join bar (first ∷ (values ++ tags_value token)) ≡ join bar (first ∷ values) ++ ending token
unfolding ◌==◌
join-tags_value first values [] =
    ap (λ vs. join bar (first ∷ vs)) (no_more values) ∙ sym (append_nil (join bar (first ∷ values)))
join-tags_value first values (c ∷ token) = join-last first values (str "tags=" ++ c ∷ token)

ending-injective : (a b : Str) → ending a ≡ ending b → a ≡ b
ending-injective [] [] h = refl
ending-injective [] (c ∷ b) h = cc
ending-injective (c ∷ a) [] h = cc
ending-injective (c ∷ a) (d ∷ b) h = ap (drop 6) h

module _ (hash : Str → Str) (route : Str) (t : ReadKeyTemplate) (r : Request) where
  abbrev query_hash : Str
  query_hash = query_param_hash_selected hash r t.query_params

  -- The values between the route and the token.
  abbrev values_before : List Str
  values_before =
      given t.method (str "method=" ++ to_upper (trim_space r.method))
      ++ (map (part_value r) t.parts
          ++ (given t.user_id (user_value r)
              ++ (given t.role (str "role=" ++ trim_space r.role)
                  ++ (map (path_value r) t.path_params
                      ++ (map (header_value r) t.headers
                          ++ (given (not (query_hash == [])) (str "query_hash=" ++ query_hash)
                              ++ given (r.has_principal && t.allow_authenticated)
                                  (str "auth=allowed")))))))

  abbrev route_value : Str
  route_value = str "route=" ++ route_part_of route t

  key_values-last :
      (token : Str)
      → key_values hash (route_part_of route t) t token r
        ≡ route_value ∷ (values_before ++ tags_value token)
  unfolding key_values values_after_parts
  key_values-last token =
      ap (λ vs. route_value ∷ vs)
        (to_the_end (given t.method (str "method=" ++ to_upper (trim_space r.method)))
          (map (part_value r) t.parts) (given t.user_id (user_value r))
          (given t.role (str "role=" ++ trim_space r.role)) (map (path_value r) t.path_params)
          (map (header_value r) t.headers)
          (given (not (query_hash == [])) (str "query_hash=" ++ query_hash))
          (given (r.has_principal && t.allow_authenticated) (str "auth=allowed"))
          (tags_value token))

  canonical-ending :
      (token : Str)
      → canonical hash route t token r ≡ join bar (route_value ∷ values_before) ++ ending token
  unfolding canonical
  canonical-ending token =
      ap (join bar) (key_values-last token) ∙ join-tags_value route_value values_before token

  pub canonical-token :
      (a b : Str) → canonical hash route t a r ≡ canonical hash route t b r → a ≡ b
  canonical-token a b h = ending-injective a b (
      append_cancel (join bar (route_value ∷ values_before)) (ending a) (ending b)
        (sym (canonical-ending a) ∙ h ∙ canonical-ending b))
