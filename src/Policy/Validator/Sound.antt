-- ===== src/Policy/Validator/Sound.antt =====
-- What a route that the validator accepts has.
use superapi.Prelude.{
  ℕ, ◌≤◌, Str, ◌≡◌, ◌≢◌, ◌↔◌, refl, ap, true, false, none, List, [], ◌∷◌, ◌==◌, ==-eq, ==-refl, ◌⊎◌,
  inl, inr, arith, All, ltb, Bool-cases,
}
use superapi.Policy.Metadata.{
  Metadata, policy_type_unknown, policy_type_auth_required, policy_type_require_perm,
  policy_type_require_any_perm, policy_type_cache_read,
}
use superapi.Policy.Validator.{
  policy_order_stage, order_from, validate_policy_ordering, has_policy_type, find_policies,
  validate_auth_dependencies, all_vary, validate_cache_safety,
}

-- Neither has a stage to be ordered by, or the first comes no later than the second.
abbrev pub NotAfter : Metadata → Metadata → Type 0
NotAfter m n =
    (policy_order_stage m ≡ 0)
    ⊎ ((policy_order_stage n ≡ 0) ⊎ (policy_order_stage m ≤ policy_order_stage n))

-- Every policy is in order with every later one.
abbrev pub IsOrdered : List Metadata → Type 0
IsOrdered [] = Unit
IsOrdered (m ∷ ms) = All (NotAfter m) ms × IsOrdered ms

abbrev Above : ℕ → Metadata → Type 0
Above s n = (policy_order_stage n ≡ 0) ⊎ (s ≤ policy_order_stage n)

All-map :
    (P Q : Metadata → Type 0) (f : (m : Metadata) → P m → Q m) (ms : List Metadata)
    → All P ms
    → All Q ms
All-map P Q f [] h = tt
All-map P Q f (m ∷ ms) (p, h) = (f m p, All-map P Q f ms h)

order_from-Above :
    (s : ℕ) (t : Str) (ms : List Metadata)
    → order_from s t ms ≡ none
    → All (Above s) ms × IsOrdered ms
unfolding order_from
order_from-Above s t [] h = (tt, tt)
order_from-Above s t (m ∷ ms) h = elim (Bool-cases (ltb 0 (policy_order_stage m))) [
  | inr e ↦
      let (above, ordered) = order_from-Above s t ms (ground arith) in
      (
        (inl (ground arith), above),
        (All-map (Above s) (NotAfter m) (λ n a. inl (ground arith)) ms above, ordered),
      )
  | inl e ↦
      let (above, ordered) =
        order_from-Above (policy_order_stage m) m.policy_type ms (ground arith) in
      let here : s ≤ policy_order_stage m = ground arith in
      (
        (inr here, All-map (Above (policy_order_stage m)) (Above s) (λ n a. ground arith) ms above),
        (All-map (Above (policy_order_stage m)) (NotAfter m) (λ n a. inr a) ms above, ordered),
      )
]

Above-order_from :
    (s : ℕ) (t : Str) (ms : List Metadata)
    → All (Above s) ms
    → IsOrdered ms
    → order_from s t ms ≡ none
unfolding order_from
Above-order_from s t [] a o = refl
Above-order_from s t (m ∷ ms) (am, a) (om, o) = elim (Bool-cases (ltb 0 (policy_order_stage m))) [
  | inr e ↦ ground (arith, Above-order_from s t ms a o)
  | inl e ↦
      let later = All-map (NotAfter m) (Above (policy_order_stage m)) (λ n b. ground arith) ms om in
      ground (arith, Above-order_from (policy_order_stage m) m.policy_type ms later o)
]

Above-zero : (ms : List Metadata) → All (Above 0) ms
Above-zero [] = tt
Above-zero (m ∷ ms) = (inr (omega arith), Above-zero ms)

pub validate_policy_ordering-IsOrdered :
    (ms : List Metadata) → (validate_policy_ordering ms ≡ none) ↔ IsOrdered ms
unfolding validate_policy_ordering
validate_policy_ordering-IsOrdered ms = (
  (λ h. (order_from-Above 0 policy_type_unknown ms h).1),
  (λ o. Above-order_from 0 policy_type_unknown ms (Above-zero ms) o),
)

abbrev pub HasType : Str → List Metadata → Type 0
HasType t [] = ⊥
HasType t (m ∷ ms) = (m.policy_type ≡ t) ⊎ HasType t ms

abbrev pub IsOther : Str → Metadata → Type 0
IsOther t m = m.policy_type ≢ t

==-false : (s t : Str) → (s == t) ≡ false → s ≢ t
==-false s t h e = cc (ap (λ x. x == t) e, ==-refl t)

false-== : (s t : Str) → s ≢ t → (s == t) ≡ false
false-== s t h = elim (Bool-cases (s == t)) [ inl e ↦ absurd (h (==-eq s t e)) | inr e ↦ e ]

pub has_policy_type-HasType :
    (t : Str) (ms : List Metadata) → has_policy_type ms t ≡ true → HasType t ms
unfolding has_policy_type
has_policy_type-HasType t [] h = cc
has_policy_type-HasType t (m ∷ ms) h = elim (Bool-cases (m.policy_type == t)) [
  | inl e ↦ inl (==-eq m.policy_type t e)
  | inr e ↦ inr (has_policy_type-HasType t ms (ground arith))
]

pub HasType-has_policy_type :
    (t : Str) (ms : List Metadata) → HasType t ms → has_policy_type ms t ≡ true
unfolding has_policy_type
HasType-has_policy_type t [] h = absurd h
HasType-has_policy_type t (m ∷ ms) (inl e) = rw e (ground (arith, ==-refl t))
HasType-has_policy_type t (m ∷ ms) (inr h) = ground (arith, HasType-has_policy_type t ms h)

pub has_policy_type-IsOther :
    (t : Str) (ms : List Metadata) → has_policy_type ms t ≡ false → All (IsOther t) ms
unfolding has_policy_type
has_policy_type-IsOther t [] h = tt
has_policy_type-IsOther t (m ∷ ms) h =
    (==-false m.policy_type t (ground arith), has_policy_type-IsOther t ms (ground arith))

IsOther-has_policy_type :
    (t : Str) (ms : List Metadata) → All (IsOther t) ms → has_policy_type ms t ≡ false
unfolding has_policy_type
IsOther-has_policy_type t [] h = refl
IsOther-has_policy_type t (m ∷ ms) (o, h) =
    ground (arith, false-== m.policy_type t o, IsOther-has_policy_type t ms h)

-- RBAC policies stand on a route only with AuthRequired.
abbrev pub HasAuthForRbac : List Metadata → Type 0
HasAuthForRbac ms =
    HasType policy_type_auth_required ms
    ⊎ (All (IsOther policy_type_require_perm) ms × All (IsOther policy_type_require_any_perm) ms)

pub validate_auth_dependencies-HasAuthForRbac :
    (ms : List Metadata) → validate_auth_dependencies ms ≡ none → HasAuthForRbac ms
unfolding validate_auth_dependencies
validate_auth_dependencies-HasAuthForRbac ms h =
    elim (Bool-cases (has_policy_type ms policy_type_auth_required)) [
      | inl e ↦ inl (has_policy_type-HasType policy_type_auth_required ms e)
      | inr e ↦ inr (
        has_policy_type-IsOther policy_type_require_perm ms (ground arith),
        has_policy_type-IsOther policy_type_require_any_perm ms (ground arith),
      )
    ]

pub HasAuthForRbac-validate_auth_dependencies :
    (ms : List Metadata) → HasAuthForRbac ms → validate_auth_dependencies ms ≡ none
unfolding validate_auth_dependencies
HasAuthForRbac-validate_auth_dependencies ms (inl h) =
    rw (HasType-has_policy_type policy_type_auth_required ms h) refl
HasAuthForRbac-validate_auth_dependencies ms (inr (p, q)) = ground (
  arith,
  IsOther-has_policy_type policy_type_require_perm ms p,
  IsOther-has_policy_type policy_type_require_any_perm ms q,
)

-- A cached response varies by who asks.
abbrev pub Varies : Metadata → Type 0
Varies m =
    IsOther policy_type_cache_read m
    ⊎ ((m.cache_read.vary_by_user_id ≡ true) ⊎ (m.cache_read.vary_by_identity_part ≡ true))

abbrev pub CacheIsSafe : List Metadata → Type 0
CacheIsSafe ms = All (IsOther policy_type_auth_required) ms ⊎ All Varies ms

all_vary-Varies :
    (ms : List Metadata) → all_vary (find_policies ms policy_type_cache_read) ≡ none → All Varies ms
unfolding all_vary find_policies
all_vary-Varies [] h = tt
all_vary-Varies (m ∷ ms) h = elim (Bool-cases (m.policy_type == policy_type_cache_read)) [
  | inl e ↦
      let kept = rw e at h in
      (
        inr (elim (Bool-cases m.cache_read.vary_by_user_id) [
          | inl u ↦ inl u
          | inr u ↦ inr (ground arith)
        ]),
        all_vary-Varies ms (ground arith),
      )
  | inr e ↦ (inl (==-false m.policy_type policy_type_cache_read e), all_vary-Varies ms (rw e at h))
]

Varies-all_vary_cons :
    (m : Metadata) (ms : List Metadata)
    → Varies m
    → (m.policy_type == policy_type_cache_read) ≡ true
    → all_vary (find_policies ms policy_type_cache_read) ≡ none
    → all_vary (m ∷ find_policies ms policy_type_cache_read) ≡ none
unfolding all_vary
Varies-all_vary_cons m ms (inl o) e h = absurd (o (==-eq m.policy_type policy_type_cache_read e))
Varies-all_vary_cons m ms (inr (inl u)) e h = rw u h
Varies-all_vary_cons m ms (inr (inr u)) e h = ground arith

Varies-all_vary :
    (ms : List Metadata) → All Varies ms → all_vary (find_policies ms policy_type_cache_read) ≡ none
unfolding all_vary find_policies
Varies-all_vary [] h = refl
Varies-all_vary (m ∷ ms) (v, h) = elim (Bool-cases (m.policy_type == policy_type_cache_read)) [
  | inr e ↦ rw e (Varies-all_vary ms h)
  | inl e ↦ rw e (Varies-all_vary_cons m ms v e (Varies-all_vary ms h))
]

pub validate_cache_safety-CacheIsSafe :
    (ms : List Metadata) → validate_cache_safety ms ≡ none → CacheIsSafe ms
unfolding validate_cache_safety
validate_cache_safety-CacheIsSafe ms h =
    elim (Bool-cases (has_policy_type ms policy_type_auth_required)) [
      | inr e ↦ inl (has_policy_type-IsOther policy_type_auth_required ms e)
      | inl e ↦ inr (all_vary-Varies ms (rw e at h))
    ]

pub CacheIsSafe-validate_cache_safety :
    (ms : List Metadata) → CacheIsSafe ms → validate_cache_safety ms ≡ none
unfolding validate_cache_safety
CacheIsSafe-validate_cache_safety ms (inl h) =
    rw (IsOther-has_policy_type policy_type_auth_required ms h) refl
CacheIsSafe-validate_cache_safety ms (inr h) =
    elim (Bool-cases (has_policy_type ms policy_type_auth_required)) [
      | inr e ↦ rw e refl
      | inl e ↦ rw e (Varies-all_vary ms h)
    ]
