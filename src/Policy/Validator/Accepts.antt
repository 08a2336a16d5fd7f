-- ===== src/Policy/Validator/Accepts.antt =====
-- Which routes ValidateRouteMetadataWith accepts.
use superapi.Prelude.{
  Str, ◌≡◌, ◌≢◌, ◌↔◌, refl, Bool, false, Option, none, some, List, [], ◌∷◌, ◌==◌, ◌⊎◌, inl, inr,
  arith, All, trim_space, to_upper, if◌then◌else◌,
}
use superapi.Policy.Metadata.{Metadata}
use superapi.Policy.Validator.{
  validate_policy_ordering, validate_auth_dependencies, validate_cache_safety, RouteRule, or_else,
  apply_rules, validate_route_rules, rules_unless_empty, method_is_required, pattern_is_required,
  validate_route_metadata_with,
}
use superapi.Policy.Validator.Sound.{
  IsOrdered, HasAuthForRbac, CacheIsSafe, validate_policy_ordering-IsOrdered,
  validate_auth_dependencies-HasAuthForRbac, HasAuthForRbac-validate_auth_dependencies,
  validate_cache_safety-CacheIsSafe, CacheIsSafe-validate_cache_safety,
}

-- The rule of a feature has no objection; a nil rule has none.
abbrev pub Accepts : Str → Str → List Metadata → Option RouteRule → Type 0
Accepts method pattern ms none = Unit
Accepts method pattern ms (some rule) = rule method pattern ms ≡ none

or_else-none : (o next : Option Str) → or_else o next ≡ none → (o ≡ none) × (next ≡ none)
or_else-none none next h = (refl, h)
or_else-none (some e) next h = cc

none-or_else : (o next : Option Str) → o ≡ none → next ≡ none → or_else o next ≡ none
none-or_else o next h k = rw h k

apply_rules-Accepts :
    (method pattern : Str) (ms : List Metadata) (rules : List (Option RouteRule))
    → apply_rules method pattern ms rules ≡ none
    → All (Accepts method pattern ms) rules
unfolding apply_rules
apply_rules-Accepts method pattern ms [] h = tt
apply_rules-Accepts method pattern ms (none ∷ rules) h =
    (tt, apply_rules-Accepts method pattern ms rules h)
apply_rules-Accepts method pattern ms (some rule ∷ rules) h =
    let (here, later) =
      or_else-none (rule method pattern ms) (apply_rules method pattern ms rules) h in
    (here, apply_rules-Accepts method pattern ms rules later)

Accepts-apply_rules :
    (method pattern : Str) (ms : List Metadata) (rules : List (Option RouteRule))
    → All (Accepts method pattern ms) rules
    → apply_rules method pattern ms rules ≡ none
unfolding apply_rules
Accepts-apply_rules method pattern ms [] h = refl
Accepts-apply_rules method pattern ms (none ∷ rules) (x, h) =
    Accepts-apply_rules method pattern ms rules h
Accepts-apply_rules method pattern ms (some rule ∷ rules) (x, h) =
    none-or_else (rule method pattern ms) (apply_rules method pattern ms rules) x
      (Accepts-apply_rules method pattern ms rules h)

-- The policies are in order, RBAC stands on authentication, and what is cached behind
-- authentication varies by who asks; no rule of a feature objects.
pub record IsSafe (method pattern : Str) (ms : List Metadata) (rules : List (Option RouteRule))
    : Type 0 where
  pub ordered : IsOrdered ms
  pub rbac : HasAuthForRbac ms
  pub cached : CacheIsSafe ms
  pub accepted : All (Accepts method pattern ms) rules

pub validate_route_rules-IsSafe :
    (method pattern : Str) (ms : List Metadata) (rules : List (Option RouteRule))
    → validate_route_rules method pattern ms rules ≡ none
    → IsSafe method pattern ms rules
unfolding validate_route_rules
validate_route_rules-IsSafe method pattern ms rules h =
    let rules_run = apply_rules method pattern ms rules in
    let (o, h1) = or_else-none (validate_policy_ordering ms) _ h in
    let (a, h2) = or_else-none (validate_auth_dependencies ms) _ h1 in
    let (c, r) = or_else-none (validate_cache_safety ms) rules_run h2 in
    record {
      ordered = (validate_policy_ordering-IsOrdered ms).0 o;
      rbac = validate_auth_dependencies-HasAuthForRbac ms a;
      cached = validate_cache_safety-CacheIsSafe ms c;
      accepted = apply_rules-Accepts method pattern ms rules r;
    }

IsSafe-validate_route_rules :
    (method pattern : Str) (ms : List Metadata) (rules : List (Option RouteRule))
    → IsSafe method pattern ms rules
    → validate_route_rules method pattern ms rules ≡ none
unfolding validate_route_rules
IsSafe-validate_route_rules method pattern ms rules s =
    none-or_else (validate_policy_ordering ms) _
      ((validate_policy_ordering-IsOrdered ms).1 s.ordered)
      (none-or_else (validate_auth_dependencies ms) _
        (HasAuthForRbac-validate_auth_dependencies ms s.rbac)
        (none-or_else (validate_cache_safety ms) _ (CacheIsSafe-validate_cache_safety ms s.cached)
          (Accepts-apply_rules method pattern ms rules s.accepted)))

-- What a route needs to be accepted: a method and a pattern that are not blank, and policies that
-- are safe together, if there are any.
pub record IsAcceptable (method pattern : Str) (ms : List Metadata)
    (rules : List (Option RouteRule)) : Type 0 where
  pub has_method : to_upper (trim_space method) ≢ []
  pub has_pattern : trim_space pattern ≢ []
  pub safe : (ms ≡ []) ⊎ IsSafe (to_upper (trim_space method)) (trim_space pattern) ms rules

==-[] : (s : Str) → (s == []) ≡ false → s ≢ []
unfolding ◌==◌
==-[] [] h e = cc
==-[] (c ∷ s) h e = cc

[]-== : (s : Str) → s ≢ [] → (s == []) ≡ false
unfolding ◌==◌
[]-== [] h = absurd (h refl)
[]-== (c ∷ s) h = refl

guards_passed :
    (a b : Bool) (x y : Str) (z : Option Str)
    → (if a then some x else if b then some y else z) ≡ none
    → (a ≡ false) × (b ≡ false) × (z ≡ none)
guards_passed a b x y z h = ground arith

pass_guards :
    (a b : Bool) (x y : Str) (z : Option Str)
    → a ≡ false
    → b ≡ false
    → z ≡ none
    → (if a then some x else if b then some y else z) ≡ none
pass_guards a b x y z p q h = ground arith

IsSafe-unless_empty :
    (method pattern : Str) (ms : List Metadata) (rules : List (Option RouteRule))
    → rules_unless_empty method pattern ms rules ≡ none
    → (ms ≡ []) ⊎ IsSafe method pattern ms rules
IsSafe-unless_empty method pattern [] rules h = inl refl
IsSafe-unless_empty method pattern (m ∷ ms) rules h =
    inr (validate_route_rules-IsSafe method pattern (m ∷ ms) rules h)

accept :
    (rules : List (Option RouteRule)) (method pattern : Str) (ms : List Metadata)
    → validate_route_metadata_with rules method pattern ms ≡ none
    → IsAcceptable method pattern ms rules
unfolding validate_route_metadata_with
accept rules method pattern ms h =
    let m = to_upper (trim_space method) in
    let p = trim_space pattern in
    let (a, b, z) =
      guards_passed (m == []) (p == []) method_is_required pattern_is_required
        (rules_unless_empty m p ms rules) h in
    record {
      has_method = ==-[] m a;
      has_pattern = ==-[] p b;
      safe = IsSafe-unless_empty m p ms rules z;
    }

checked :
    (method pattern : Str) (ms : List Metadata) (rules : List (Option RouteRule))
    → (ms ≡ []) ⊎ IsSafe method pattern ms rules
    → rules_unless_empty method pattern ms rules ≡ none
checked method pattern [] rules h = refl
checked method pattern (m ∷ ms) rules (inl e) = cc
checked method pattern (m ∷ ms) rules (inr s) =
    IsSafe-validate_route_rules method pattern (m ∷ ms) rules s

acceptable :
    (rules : List (Option RouteRule)) (method pattern : Str) (ms : List Metadata)
    → IsAcceptable method pattern ms rules
    → validate_route_metadata_with rules method pattern ms ≡ none
unfolding validate_route_metadata_with
acceptable rules method pattern ms a =
    let m = to_upper (trim_space method) in
    let p = trim_space pattern in
    pass_guards (m == []) (p == []) method_is_required pattern_is_required
      (rules_unless_empty m p ms rules) ([]-== m a.has_method) ([]-== p a.has_pattern)
      (checked m p ms rules a.safe)

-- The validator accepts the metadata of a route's policies exactly when the method and the pattern
-- are not blank and there are no policies at all, or every policy comes no later than those of later
-- stages, RBAC policies are there only with AuthRequired, every CacheRead beside AuthRequired varies
-- by user or identity, and every rule of a feature accepts.
pub validate_route_metadata_with_iff :
    (rules : List (Option RouteRule)) (method pattern : Str) (ms : List Metadata)
    → (validate_route_metadata_with rules method pattern ms ≡ none)
      ↔ IsAcceptable method pattern ms rules
validate_route_metadata_with_iff rules method pattern ms =
    (accept rules method pattern ms, acceptable rules method pattern ms)
