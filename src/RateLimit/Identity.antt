-- ===== src/RateLimit/Identity.antt =====
-- What identities a limit counts by.
use superapi.Prelude.{
  ℕ, zero, suc, ◌≤◌, Str, ◌≡◌, refl, Bool, true, false, not, ◌||◌, Option, none, some, [], ◌∷◌,
  ◌==◌, map, take, length, eqb, all, if◌then◌else◌, inl, inr, arith, Bool-cases, trim_space,
}
use superapi.RateLimit.{
  Caller, Rule, Keyer, sanitize_identifier, normalize_key, nobody, unless_anon, scope_anon,
  scope_ip, scope_user, scope_token, scope_auto, resolve_by_scope, resolve_scope_and_identifier,
  or_anon, blank_to_underscore, resolve_with, key_by_ip, key_by_user, key_by_token_hash,
  key_by_user_or_token_hash,
}

-- Not a space, a line feed, a carriage return or a tab.
abbrev pub is_not_blank : ℕ → Bool
is_not_blank c = not (eqb c 32 || eqb c 10 || eqb c 13 || eqb c 9)

-- A scope and an identifier that make a key of a limit: neither is empty, the scope is not "auto", and
-- the identifier has at most 128 bytes, none of them blank.
pub record IsClean (key : Str × Str) : Type 0 where
  pub has_scope : ((key.0 == []) || (key.0 == scope_auto)) ≡ false
  pub has_id : (key.1 == []) ≡ false
  pub bounded : length key.1 ≤ 128
  pub no_blank : all is_not_blank key.1 ≡ true

length-take : (n : ℕ) (s : Str) → length (take n s) ≤ n
length-take zero s = omega arith
length-take (suc n) [] = omega arith
length-take (suc n) (c ∷ s) = omega (arith, length-take n s)

take-replaced : (n : ℕ) (s : Str) → all is_not_blank (take n (map blank_to_underscore s)) ≡ true
take-replaced zero s = refl
take-replaced (suc n) [] = refl
take-replaced (suc n) (c ∷ s) =
    let here : is_not_blank (blank_to_underscore c) ≡ true = ground arith in
    rw here (take-replaced n s)

sanitized :
    (id : Str)
    → (length (sanitize_identifier id) ≤ 128) × (all is_not_blank (sanitize_identifier id) ≡ true)
unfolding sanitize_identifier
sanitized id = elim (Bool-cases (trim_space id == [])) [
  | inl e ↦ rw e (omega arith, refl)
  | inr e ↦
      rw e (
        length-take 128 (map blank_to_underscore (trim_space id)),
        take-replaced 128 (trim_space id),
      )
]

or_anon-clean : (scope : Str) → ((or_anon scope == []) || (or_anon scope == scope_auto)) ≡ false
or_anon-clean scope = elim (Bool-cases ((scope == []) || (scope == scope_auto))) [
  | inl e ↦ rw e (unfold ◌==◌ in refl)
  | inr e ↦ rw e e
]

nobody-IsClean : IsClean nobody
unfolding ◌==◌
nobody-IsClean = record { has_scope = refl; has_id = refl; bounded = omega arith; no_blank = refl }

IsClean-pair :
    (scope id : Str)
    → ((scope == []) || (scope == scope_auto)) ≡ false
    → (id == []) ≡ false
    → length id ≤ 128
    → all is_not_blank id ≡ true
    → IsClean (scope, id)
IsClean-pair scope id s i b n = record { has_scope = s; has_id = i; bounded = b; no_blank = n }

normalize_key-IsClean : (key : Str × Str) → IsClean (normalize_key key)
unfolding normalize_key
normalize_key-IsClean (scope, id) = elim (Bool-cases (sanitize_identifier id == [])) [
  | inl e ↦ rw e nobody-IsClean
  | inr e ↦
      let (bounded, no_blank) = sanitized id in
      rw e (
        IsClean-pair (or_anon scope) (sanitize_identifier id) (or_anon-clean scope) e bounded
          no_blank)
]

unless_anon-IsClean :
    (key next : Str × Str) → IsClean key → IsClean next → IsClean (unless_anon key next)
unless_anon-IsClean (scope, id) next h k = elim (Bool-cases (scope == scope_anon)) [
  | inl e ↦ rw e k
  | inr e ↦ rw e h
]

choose : (b : Bool) (x y : Str × Str) → IsClean x → IsClean y → IsClean (if b then x else y)
choose true x y h k = h
choose false x y h k = k

resolve_by_scope-IsClean : (scope : Str) (r : Caller) → IsClean (resolve_by_scope scope r)
unfolding resolve_by_scope
resolve_by_scope-IsClean scope r =
    let user = normalize_key-IsClean (key_by_user r) in
    let token = normalize_key-IsClean (key_by_token_hash r) in
    let token_or_nobody =
      unless_anon-IsClean (normalize_key (key_by_token_hash r)) nobody token nobody-IsClean in
    choose (scope == scope_ip) _ _ (normalize_key-IsClean (key_by_ip r)) (
      choose (scope == scope_user) _ _
        (unless_anon-IsClean (normalize_key (key_by_user r)) _ user token_or_nobody)
        (choose (scope == scope_token) _ _ token_or_nobody (
          choose ((scope == scope_auto) || (scope == [])) _ _
            (unless_anon-IsClean (normalize_key (key_by_user_or_token_hash r)) nobody
              (normalize_key-IsClean (key_by_user_or_token_hash r)) nobody-IsClean)
            nobody-IsClean)))

resolved-IsClean :
    (r : Caller) (rule : Rule) (o : Option Keyer) → IsClean (resolve_with r rule.scope o)
resolved-IsClean r rule none = resolve_by_scope-IsClean rule.scope r
resolved-IsClean r rule (some keyer) =
    unless_anon-IsClean (normalize_key (keyer r)) (resolve_by_scope rule.scope r)
      (normalize_key-IsClean (keyer r)) (resolve_by_scope-IsClean rule.scope r)

-- Whatever the caller and the rule, its keyer included, are: the scope and the identifier that a
-- request counts by are not empty, the scope is not "auto", and the identifier has at most 128 bytes,
-- none of them a space, a line feed, a carriage return or a tab.
pub resolve_scope_and_identifier-IsClean :
    (r : Caller) (rule : Rule) → IsClean (resolve_scope_and_identifier r rule)
unfolding resolve_scope_and_identifier
resolve_scope_and_identifier-IsClean r rule = resolved-IsClean r rule rule.keyer
