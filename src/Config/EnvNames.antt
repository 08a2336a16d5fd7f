-- ===== src/Config/EnvNames.antt =====
-- The names of the environment that mean production, and those that mean development.
use superapi.Prelude.{
  Str, str, true, false, ◌||◌, ◌≡◌, ◌⊎◌, refl, List, [], ◌∷◌, ◌==◌, ==-eq, mem, trim_space,
  to_lower, equal_fold, inl, inr, Bool-cases,
}
use superapi.Config.Sections.{is_prod_env, is_dev_or_test_env}

-- The environment names of production are none of those of development.
pub one_of_two : (s p q : Str) → s == p || s == q ≡ true → (s ≡ p) ⊎ (s ≡ q)
one_of_two s p q h = elim (Bool-cases (s == p)) [
  | inl first ↦ inl (==-eq s p first)
  | inr other ↦ inr (==-eq s q (rw other at h))
]

abbrev pub ProductionName : Str → Type 0
ProductionName s = (s ≡ str "prod") ⊎ (s ≡ str "production")

pub is_prod_env-name :
    (env : Str) → is_prod_env env ≡ true → ProductionName (to_lower (trim_space env))
unfolding is_prod_env equal_fold
is_prod_env-name env h =
    one_of_two (to_lower (trim_space env)) (str "prod") (str "production") (unfold to_lower in h)

pub production-not_dev : (s : Str) → ProductionName s → s == str "dev" ≡ false
unfolding ◌==◌
production-not_dev s (inl e) = rw e refl
production-not_dev s (inr e) = rw e refl

abbrev pub dev_names : List Str
dev_names = str "dev" ∷ str "development" ∷ str "local" ∷ str "test" ∷ []

pub production-not_dev_name : (s : Str) → ProductionName s → mem s dev_names ≡ false
unfolding mem ◌==◌
production-not_dev_name s (inl e) = rw e refl
production-not_dev_name s (inr e) = rw e refl

pub is_prod_env-not_dev : (env : Str) → is_prod_env env ≡ true → is_dev_or_test_env env ≡ false
unfolding is_dev_or_test_env
is_prod_env-not_dev env h =
    production-not_dev_name (to_lower (trim_space env)) (is_prod_env-name env h)

pub is_prod_env-not_equal_fold :
    (env : Str) → is_prod_env env ≡ true → equal_fold (trim_space env) (str "dev") ≡ false
unfolding equal_fold
is_prod_env-not_equal_fold env h =
    unfold to_lower in production-not_dev (to_lower (trim_space env)) (is_prod_env-name env h)
