-- ===== src/Policy/TenantRule/Loop.antt =====
-- internal/tenancy/rules.go: what the loop over the policies finds, and what follows from it.
use superapi.Prelude.{
  ℕ, suc, ◌<◌, Str, ◌≡◌, ◌≢◌, refl, ap, sym, ◌∙◌, true, false, Option, none, some, List, [], ◌∷◌,
  ◌++◌, ◌==◌, ==-eq, ==-refl, ◌⊎◌, inl, inr, arith, All, drop, Bool-cases,
}
use superapi.Policy.Metadata.{Metadata, policy_type_auth_required}
use superapi.Policy.Validator.{stage_isolation}
use superapi.Policy.Validator.Sound.{HasType, IsOther}
use superapi.Policy.TenantRule.{
  policy_type_tenant_required, policy_type_tenant_match_from_path, tenant_id_param, Scan, first_of,
  scan_one, scan, path_param, all_match_tenant_id, strict_checks, is_before, is_set, is_empty,
}

abbrev pub byte_at : ℕ → Str → ℕ
byte_at n s = elim (drop n s) [ [] ↦ 0 | c ∷ t ↦ c ]

pub auth≢required : policy_type_auth_required ≢ policy_type_tenant_required
auth≢required e = let d : ◌≡◌ {A = ℕ} 97 116 = ap (byte_at 0) e in absurd (omega arith)

pub required≢match : policy_type_tenant_required ≢ policy_type_tenant_match_from_path
required≢match e = let d : ◌≡◌ {A = ℕ} 114 109 = ap (byte_at 7) e in absurd (omega arith)

-- The types stand among those of the policies, in this order.
abbrev pub InOrder : List Str → List Metadata → Type 0
InOrder [] ms = Unit
InOrder (t ∷ ts) [] = ⊥
InOrder (t ∷ ts) (m ∷ ms) = ((m.policy_type ≡ t) × InOrder ts ms) ⊎ InOrder (t ∷ ts) ms

-- A policy that is a TenantMatchFromPath checks the parameter of the path's tenant.
abbrev pub MatchesTenantId : Metadata → Type 0
MatchesTenantId m = IsOther policy_type_tenant_match_from_path m ⊎ (path_param m ≡ tenant_id_param)

-- The tenant policies and AuthRequired have the stages that their constructors give them.
abbrev pub IsStaged : Metadata → Type 0
IsStaged m =
    ((m.policy_type ≢ policy_type_auth_required) ⊎ (m.stage ≡ 0))
    × ((m.policy_type ≢ policy_type_tenant_required) ⊎ (m.stage ≡ stage_isolation))

==-false : (s t : Str) → (s == t) ≡ false → s ≢ t
==-false s t h e = cc (ap (λ x. x == t) e, ==-refl t)

-- What one policy makes of the variables of the loop.
pub data Step (i : ℕ) (m : Metadata) (s t : Scan) : Type 0 where
  passed :
      IsOther policy_type_tenant_match_from_path m
      → t.required_at ≡ s.required_at
      → t.match_at ≡ s.match_at
      → t.matches ≡ s.matches
      → Step i m s t
  required :
      m.policy_type ≡ policy_type_tenant_required
      → t.required_at ≡ first_of s.required_at i
      → t.match_at ≡ s.match_at
      → t.matches ≡ s.matches
      → Step i m s t
  matched :
      m.policy_type ≡ policy_type_tenant_match_from_path
      → t.required_at ≡ s.required_at
      → t.match_at ≡ first_of s.match_at i
      → t.matches ≡ s.matches ++ m ∷ []
      → Step i m s t

pub auth≢match : policy_type_auth_required ≢ policy_type_tenant_match_from_path
auth≢match e = let d : ◌≡◌ {A = ℕ} 97 116 = ap (byte_at 0) e in absurd (omega arith)

pub scan_one-Step : (i : ℕ) (m : Metadata) (s : Scan) → Step i m s (scan_one i m s)
unfolding scan_one
scan_one-Step i m s = elim (Bool-cases (m.policy_type == policy_type_auth_required)) [
  | inl a ↦ rw a (
      passed (λ e. auth≢match (sym (==-eq m.policy_type policy_type_auth_required a) ∙ e)) refl refl
        refl)
  | inr a ↦ elim (Bool-cases (m.policy_type == policy_type_tenant_required)) [
    | inl r ↦
        rw a (rw r (required (==-eq m.policy_type policy_type_tenant_required r) refl refl refl))
    | inr r ↦ elim (Bool-cases (m.policy_type == policy_type_tenant_match_from_path)) [
      | inl p ↦ rw a (
          rw r (
            rw p
              (matched (==-eq m.policy_type policy_type_tenant_match_from_path p) refl refl refl)))
      | inr p ↦ rw a (
          rw r (
            rw p (
              passed (==-false m.policy_type policy_type_tenant_match_from_path p) refl refl refl)))
    ]
  ]
]

pub scan-required_at :
    (j i : ℕ) (ms : List Metadata) (s : Scan)
    → s.required_at ≡ some j
    → (scan i ms s).required_at ≡ some j
unfolding scan
scan-required_at j i [] s h = h
scan-required_at j i (m ∷ ms) s h =
    let t = scan_one i m s in
    scan-required_at j (suc i) ms t (elim (scan_one-Step i m s) [
      | passed o r a n ↦ r ∙ h
      | required o r a n ↦ r ∙ ap (λ x. first_of x i) h
      | matched o r a n ↦ r ∙ h
    ])

pub scan-match_at :
    (j i : ℕ) (ms : List Metadata) (s : Scan)
    → s.match_at ≡ some j
    → (scan i ms s).match_at ≡ some j
unfolding scan
scan-match_at j i [] s h = h
scan-match_at j i (m ∷ ms) s h =
    let t = scan_one i m s in
    scan-match_at j (suc i) ms t (elim (scan_one-Step i m s) [
      | passed o r a n ↦ a ∙ h
      | required o r a n ↦ a ∙ h
      | matched o r a n ↦ a ∙ ap (λ x. first_of x i) h
    ])

-- The result of a loop that the checks after it let through on a guarded path.
pub record IsPassed (s : Scan) : Type 0 where
  pub found : is_set s.required_at ≡ true
  pub ordered : is_before s.match_at s.required_at ≡ false
  pub some_match : is_empty s.matches ≡ false

pub not_before :
    (k i : ℕ) (s : Scan)
    → k < i
    → s.match_at ≡ some k
    → s.required_at ≡ some i
    → is_before s.match_at s.required_at ≡ false
    → ⊥
not_before k i s lt a r h = ground arith

-- A match that was seen before TenantRequired does not pass.
pub match_first :
    (k i : ℕ) (ms : List Metadata) (s : Scan)
    → k < i
    → s.match_at ≡ some k
    → s.required_at ≡ none
    → IsPassed (scan i ms s)
    → ⊥
unfolding scan
match_first k i [] s lt a r p = ground (arith, p.found)
match_first k i (m ∷ ms) s lt a r p =
    let t = scan_one i m s in
    elim (scan_one-Step i m s) [
      | passed o r' a' n ↦ match_first k (suc i) ms t (omega arith) (a' ∙ a) (r' ∙ r) p
      | matched o r' a' n ↦
          match_first k (suc i) ms t (omega arith) (a' ∙ ap (λ x. first_of x i) a) (r' ∙ r) p
      | required o r' a' n ↦
          let now = scan-required_at i (suc i) ms t (r' ∙ ap (λ x. first_of x i) r) in
          let then_at = scan-match_at k (suc i) ms t (a' ∙ a) in
          not_before k i (scan (suc i) ms t) lt then_at now p.ordered
    ]

pub later_match :
    (i : ℕ) (ms : List Metadata) (s : Scan)
    → s.matches ≡ []
    → is_empty (scan i ms s).matches ≡ false
    → InOrder (policy_type_tenant_match_from_path ∷ []) ms
unfolding scan
later_match i [] s n h = cc
later_match i (m ∷ ms) s n h =
    let t = scan_one i m s in
    elim (scan_one-Step i m s) [
      | passed o r a n' ↦ inr (later_match (suc i) ms t (n' ∙ n) h)
      | required o r a n' ↦ inr (later_match (suc i) ms t (n' ∙ n) h)
      | matched o r a n' ↦ inl (o, tt)
    ]

pub tenant-InOrder :
    (i : ℕ) (ms : List Metadata) (s : Scan)
    → s.required_at ≡ none
    → s.match_at ≡ none
    → s.matches ≡ []
    → IsPassed (scan i ms s)
    → InOrder (policy_type_tenant_required ∷ policy_type_tenant_match_from_path ∷ []) ms
unfolding scan
tenant-InOrder i [] s r a n p = ground (arith, p.found)
tenant-InOrder i (m ∷ ms) s r a n p =
    let t = scan_one i m s in
    elim (scan_one-Step i m s) [
      | passed o r' a' n' ↦ inr (tenant-InOrder (suc i) ms t (r' ∙ r) (a' ∙ a) (n' ∙ n) p)
      | required o r' a' n' ↦ inl (o, later_match (suc i) ms t (n' ∙ n) p.some_match)
      | matched o r' a' n' ↦
          absurd
            (match_first i (suc i) ms t (omega arith) (a' ∙ ap (λ x. first_of x i) a) (r' ∙ r) p)
    ]

pub all_match_tenant_id-append :
    (pattern : Str) (xs : List Metadata) (m : Metadata)
    → all_match_tenant_id pattern (xs ++ m ∷ []) ≡ none
    → (all_match_tenant_id pattern xs ≡ none) × (path_param m ≡ tenant_id_param)
unfolding all_match_tenant_id
all_match_tenant_id-append pattern [] m h = elim (Bool-cases (path_param m == tenant_id_param)) [
  | inl e ↦ (refl, ==-eq (path_param m) tenant_id_param e)
  | inr e ↦ cc (rw e at h)
]
all_match_tenant_id-append pattern (x ∷ xs) m h =
    elim (Bool-cases (path_param x == tenant_id_param)) [
      | inl e ↦ rw e (all_match_tenant_id-append pattern xs m (rw e at h))
      | inr e ↦ cc (rw e at h)
    ]

pub scan-MatchesTenantId :
    (pattern : Str) (i : ℕ) (ms : List Metadata) (s : Scan)
    → all_match_tenant_id pattern (scan i ms s).matches ≡ none
    → (all_match_tenant_id pattern s.matches ≡ none) × All MatchesTenantId ms
unfolding scan
scan-MatchesTenantId pattern i [] s h = (h, tt)
scan-MatchesTenantId pattern i (m ∷ ms) s h =
    let t = scan_one i m s in
    let (now, later) = scan-MatchesTenantId pattern (suc i) ms t h in
    elim (scan_one-Step i m s) [
      | passed o r a n ↦ (ap (all_match_tenant_id pattern) (sym n) ∙ now, (inl o, later))
      | required o r a n ↦ (
        ap (all_match_tenant_id pattern) (sym n) ∙ now,
        (inl (λ e. required≢match (sym o ∙ e)), later),
      )
      | matched o r a n ↦
          let (before, same) =
            all_match_tenant_id-append pattern s.matches m
              (ap (all_match_tenant_id pattern) (sym n) ∙ now) in
          (before, (inr same, later))
    ]

pub strict_fields :
    (pattern : Str) (r : Option ℕ) (ms : List Metadata)
    → strict_checks pattern r ms ≡ none
    → (is_set r ≡ true) × (is_empty ms ≡ false) × (all_match_tenant_id pattern ms ≡ none)
strict_fields pattern none ms h = cc
strict_fields pattern (some j) [] h = cc
strict_fields pattern (some j) (m ∷ ms) h = (refl, refl, h)

pub scan_one-has_auth :
    (i : ℕ) (m : Metadata) (s : Scan)
    → ((scan_one i m s).has_auth ≡ s.has_auth) ⊎ (m.policy_type ≡ policy_type_auth_required)
unfolding scan_one
scan_one-has_auth i m s = elim (Bool-cases (m.policy_type == policy_type_auth_required)) [
  | inl a ↦ inr (==-eq m.policy_type policy_type_auth_required a)
  | inr a ↦ elim (Bool-cases (m.policy_type == policy_type_tenant_required)) [
    | inl r ↦ rw a (rw r (inl refl))
    | inr r ↦ elim (Bool-cases (m.policy_type == policy_type_tenant_match_from_path)) [
      | inl p ↦ rw a (rw r (rw p (inl refl)))
      | inr p ↦ rw a (rw r (rw p (inl refl)))
    ]
  ]
]

pub scan-has_auth :
    (i : ℕ) (ms : List Metadata) (s : Scan)
    → (scan i ms s).has_auth ≡ true
    → (s.has_auth ≡ true) ⊎ HasType policy_type_auth_required ms
unfolding scan
scan-has_auth i [] s h = inl h
scan-has_auth i (m ∷ ms) s h = elim (scan_one-has_auth i m s) [
  | inr e ↦ inr (inl e)
  | inl e ↦ elim (scan-has_auth (suc i) ms (scan_one i m s) h) [
    | inl now ↦ inl (sym e ∙ now)
    | inr later ↦ inr (inr later)
  ]
]
