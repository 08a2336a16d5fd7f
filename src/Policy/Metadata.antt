-- ===== src/Policy/Metadata.antt =====
-- internal/core/policy/metadata.go: what the validator knows of a policy, and the registry that
-- holds it. A policy is its code pointer here, which is all that the registry sees of it; `none` is
-- the nil policy. A negative Stage is read like 0, so stages are natural numbers.
use superapi.Prelude.{
  ℕ, suc, Str, str, ◌≡◌, ◌≢◌, refl, ap, Bool, false, Option, none, some, List, [], ◌∷◌, ◌==◌, ==-eq,
  Dict, eqb, arith, trim_space, if◌then◌else◌, ◌⊎◌, inl, inr, Bool-cases, subst,
}

-- The constants of PolicyType.
abbrev pub policy_type_unknown : Str
policy_type_unknown = str "unknown"

abbrev pub policy_type_cache_control : Str
policy_type_cache_control = str "cache_control"

abbrev pub policy_type_auth_required : Str
policy_type_auth_required = str "auth_required"

abbrev pub policy_type_require_perm : Str
policy_type_require_perm = str "require_perm"

abbrev pub policy_type_require_any_perm : Str
policy_type_require_any_perm = str "require_any_perm"

abbrev pub policy_type_rate_limit : Str
policy_type_rate_limit = str "rate_limit"

abbrev pub policy_type_cache_read : Str
policy_type_cache_read = str "cache_read"

abbrev pub policy_type_cache_invalidate : Str
policy_type_cache_invalidate = str "cache_invalidate"

abbrev pub policy_type_custom : Str
policy_type_custom = str "custom"

pub record CacheReadMetadata : Type 0 where
  pub allow_authenticated : Bool
  pub vary_by_user_id : Bool
  pub vary_by_identity_part : Bool

pub record Metadata : Type 0 where
  pub policy_type : Str
  pub name : Str
  pub cache_read : CacheReadMetadata
  pub tag_spec_count : ℕ
  pub stage : ℕ
  pub annotations : Dict Str

abbrev pub no_cache_read : CacheReadMetadata
no_cache_read = record {
  allow_authenticated = false;
  vary_by_user_id = false;
  vary_by_identity_part = false;
}

-- A Metadata literal that sets the type and the name.
abbrev pub named : Str → Str → Metadata
named policy_type name = record {
  policy_type = policy_type;
  name = name;
  cache_read = no_cache_read;
  tag_spec_count = 0;
  stage = 0;
  annotations = [];
}

-- policyMetadata: the latest entry of a code pointer is the one that counts.
abbrev pub Registry : Type 0
Registry = List (ℕ × Metadata)

abbrev or_default : Str → Str → Str
or_default default s = if s == [] then default else s

-- What annotatePolicy makes of the metadata before it stores them.
unfoldable pub normalized : Metadata → Metadata
unfolding ◌==◌ trim_space
normalized meta =
    let policy_type = or_default policy_type_unknown meta.policy_type in
    record {
      policy_type = policy_type;
      name = if trim_space meta.name == [] then policy_type else meta.name;
      cache_read = meta.cache_read;
      tag_spec_count = meta.tag_spec_count;
      stage = meta.stage;
      annotations = meta.annotations;
    }

unfoldable pub annotate_policy : Option ℕ → Metadata → Registry → Registry
unfolding normalized
annotate_policy none meta r = r
annotate_policy (some p) meta r = (p, normalized meta) ∷ r

unfoldable pub annotate_custom : Str → Option ℕ → Registry → Registry
unfolding annotate_policy
annotate_custom name p r =
    annotate_policy p (named policy_type_custom (or_default (str "custom") (trim_space name))) r

unfoldable pub load : ℕ → Registry → Option Metadata
load p [] = none
load p ((q, meta) ∷ r) = if eqb p q then some meta else load p r

unfoldable pub describe_policy : Option ℕ → Registry → Option Metadata
unfolding load
describe_policy none r = none
describe_policy (some p) r = load p r

pub data DescribeError : Type 0 where
  nil_policy not_annotated : ℕ → DescribeError

pub data Described : Type 0 where
  metas : List Metadata → Described
  failed : DescribeError → Described

abbrev prepend : Metadata → Described → Described
prepend meta (metas ms) = metas (meta ∷ ms)
prepend meta (failed e) = failed e

-- The loop of DescribePolicies, from index i on.
abbrev pub describe_one : ℕ → Option ℕ → Option Metadata → Described → Described
describe_one i none found rest = failed (nil_policy i)
describe_one i (some p) none rest = failed (not_annotated i)
describe_one i (some p) (some meta) rest = prepend meta rest

unfoldable pub describe_from : ℕ → List (Option ℕ) → Registry → Described
unfolding describe_policy
describe_from i [] r = metas []
describe_from i (p ∷ ps) r = describe_one i p (describe_policy p r) (describe_from (suc i) ps r)

unfoldable pub describe_policies : List (Option ℕ) → Registry → Described
unfolding describe_from
describe_policies ps r = describe_from 0 ps r

-- The metadata given, where an empty type has become "unknown" and a blank name the type.
pub record IsCompleted (meta m : Metadata) : Type 0 where
  pub policy_type_completed :
      ((meta.policy_type ≡ []) × (m.policy_type ≡ str "unknown"))
      ⊎ ((meta.policy_type ≢ []) × (m.policy_type ≡ meta.policy_type))
  pub name_completed :
      ((trim_space meta.name ≡ []) × (m.name ≡ m.policy_type))
      ⊎ ((trim_space meta.name ≢ []) × (m.name ≡ meta.name))
  pub cache_read_kept : m.cache_read ≡ meta.cache_read
  pub tag_spec_count_kept : m.tag_spec_count ≡ meta.tag_spec_count
  pub stage_kept : m.stage ≡ meta.stage
  pub annotations_kept : m.annotations ≡ meta.annotations

not_blank : (s : Str) → s ≡ [] → s == [] ≢ false
unfolding ◌==◌
not_blank s e h = cc (ap (λ x. x == []) e, h)

blank_or_given :
    (s x y value : Str)
    → value ≡ (if s == [] then x else y)
    → ((s ≡ []) × (value ≡ x)) ⊎ ((s ≢ []) × (value ≡ y))
blank_or_given s x y value h = elim (Bool-cases (s == [])) [
  | inl blank ↦ inl (==-eq s [] blank, rw blank at h)
  | inr given ↦ inr ((λ e. not_blank s e given), rw given at h)
]

normalized-IsCompleted : (meta : Metadata) → IsCompleted meta (normalized meta)
unfolding normalized
normalized-IsCompleted meta = record {
  policy_type_completed = blank_or_given meta.policy_type (str "unknown") meta.policy_type _ refl;
  name_completed = blank_or_given (trim_space meta.name) _ meta.name _ refl;
  cache_read_kept = refl;
  tag_spec_count_kept = refl;
  stage_kept = refl;
  annotations_kept = refl;
}

-- The policy built with Annotate is described by the metadata given, in which an empty type is
-- replaced by "unknown" and a blank name by the type, and nothing else is changed; the policies whose
-- code is another are described as before. The first holds of every policy with the same code,
-- whatever it was annotated with before.
pub describe_policy-annotate_policy :
    (p q : ℕ) (meta : Metadata) (r : Registry)
    → ((p ≡ q)
        × (m : Metadata) × (describe_policy (some q) (annotate_policy (some p) meta r) ≡ some m)
        × IsCompleted meta m)
      ⊎ ((p ≢ q)
          × (describe_policy (some q) (annotate_policy (some p) meta r)
              ≡ describe_policy (some q) r))
unfolding describe_policy annotate_policy
describe_policy-annotate_policy p q meta r = elim (Bool-cases (eqb q p)) [
  | inl e ↦ inl (ground arith, normalized meta, ground arith, normalized-IsCompleted meta)
  | inr e ↦ inr ((λ h. ground arith), ground arith)
]

-- Each policy is described by its own entry, in the order of the policies.
pub data AreDescribed (r : Registry) : List (Option ℕ) → List Metadata → Type 0 where
  none_left : AreDescribed r [] []
  next_one :
      (p : ℕ) (ps : List (Option ℕ)) (m : Metadata) (ms : List Metadata)
      → describe_policy (some p) r ≡ some m
      → AreDescribed r ps ms
      → AreDescribed r (some p ∷ ps) (m ∷ ms)

module _ (r : Registry) where
  step_described :
      (i : ℕ) (p : Option ℕ) (ps : List (Option ℕ)) (found : Option Metadata) (rest : Described)
      (ms : List Metadata)
      → describe_policy p r ≡ found
      → ((ns : List Metadata) → rest ≡ metas ns → AreDescribed r ps ns)
      → describe_one i p found rest ≡ metas ms
      → AreDescribed r (p ∷ ps) ms
  step_described i none ps found rest ms e ih h = cc
  step_described i (some p) ps none rest ms e ih h = cc
  step_described i (some p) ps (some m) (failed x) ms e ih h = cc
  step_described i (some p) ps (some m) (metas ns) ms e ih h =
      subst (AreDescribed r (some p ∷ ps)) (cc) (next_one p ps m ns e (ih ns refl))

  describe_from-AreDescribed :
      (i : ℕ) (ps : List (Option ℕ)) (ms : List Metadata)
      → describe_from i ps r ≡ metas ms
      → AreDescribed r ps ms
  unfolding describe_from
  describe_from-AreDescribed i [] ms h = subst (AreDescribed r []) (cc) none_left
  describe_from-AreDescribed i (p ∷ ps) ms h =
      step_described i p ps (describe_policy p r) (describe_from (suc i) ps r) ms refl
        (describe_from-AreDescribed (suc i) ps) h

  -- If DescribePolicies succeeds, none of the policies is nil and its metadata are those of the
  -- policies, one for each and in their order.
  pub describe_policies-AreDescribed :
      (ps : List (Option ℕ)) (ms : List Metadata)
      → describe_policies ps r ≡ metas ms
      → AreDescribed r ps ms
  unfolding describe_policies
  describe_policies-AreDescribed ps ms h = describe_from-AreDescribed 0 ps ms h
