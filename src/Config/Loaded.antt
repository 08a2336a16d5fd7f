-- ===== src/Config/Loaded.antt =====
-- Load and Lint read the same variables: what Lint lets pass stands in its field.
use superapi.Prelude.{
  ℕ, zero, suc, Str, ◌≡◌, refl, ap, sym, subst, ◌∙◌, map, Option, none, some, List, [], ◌∷◌,
  trim_space, arith,
}
use superapi.Prelude.Places.{get_elem?, All-at}
use superapi.Config.Numbers.{parse_bool, atoi, parse_int32, parse_int64}
use superapi.Config.Env.{
  Library, Environment, os_getenv, Source, Defaults, resolve_profile_defaults, get_bool, get_int,
  get_int32, get_int64, get_duration, get_float64,
}
use superapi.Config.Types.{Config}
use superapi.Config.Load.{load_from, load_profile, load}
use superapi.Config.Fields.{
  Field, bool_field, int_field, int32_field, int64_field, duration_field, timeout_field,
  float_field, text_field, variable_of, fields, variables_of_fields, IsGot, load_from-IsGot,
}
use superapi.Config.Lint.{Variable, linted, lint}
use superapi.Config.Reads.{ReadBy, Read, linted-Read}

abbrev from_some : {A : Type 0} → A → Option A → A
from_some a none = a
from_some a (some b) = b

-- A configuration of Load is made from the environment and some defaults.
abbrev IsLoaded : {F : Type 0} → Library F → Environment → Config F → Type 0
IsLoaded lib env c =
    (name profile service_name : Str) × (defaults : Defaults) × (c
      ≡ load_from lib name profile service_name (record { env = env; defaults = defaults }))

module _ {F : Type 0} (lib : Library F) where
  load_profile-IsLoaded :
      (env : Environment) (profile : Str) (o : Option Defaults) (c : Config F)
      → load_profile lib env profile o ≡ some c
      → IsLoaded lib env c
  load_profile-IsLoaded env profile none c h = ground arith
  load_profile-IsLoaded env profile (some d) c h = (_, _, _, d, sym (ap (from_some c) h))

  load-IsLoaded : (env : Environment) (c : Config F) → load lib env ≡ some c → IsLoaded lib env c
  unfolding load
  load-IsLoaded env c h =
      load_profile-IsLoaded env (trim_space (os_getenv env "APP_PROFILE"))
        (resolve_profile_defaults (trim_space (os_getenv env "APP_PROFILE"))) c h

  -- The field holds what the text of its variable stands for.
  abbrev pub Holds : Config F → Str → Field F → Type 0
  Holds c v (bool_field key at) = parse_bool v ≡ some (at c)
  Holds c v (int_field key at) = atoi v ≡ some (at c)
  Holds c v (int32_field key at) = parse_int32 v ≡ some (at c)
  Holds c v (int64_field key at) = parse_int64 v ≡ some (at c)
  Holds c v (duration_field key at) = lib.parse_duration v ≡ some (at c)
  Holds c v (timeout_field key at) = lib.parse_duration v ≡ some (at c)
  Holds c v (float_field key at) = lib.parse_float v ≡ some (at c)
  Holds c v (text_field key at) = at c ≡ v

  held :
      {A : Type 0} (parse : Str → Option A) (get : A → A) (v : Str) (value : A)
      → ReadBy parse get v
      → (d : A) × (value ≡ get d)
      → parse v ≡ some value
  held parse get v value read got = read.1 ∙ ap some (sym (got.1 ∙ read.2 got.0))

  field-Holds :
      (s : Source) (c : Config F) (v : Str) (f : Field F)
      → Read lib s (variable_of f).kind (variable_of f).key v
      → IsGot lib s c f
      → Holds c v f
  field-Holds s c v (bool_field key at) h g = held parse_bool (get_bool s key) v (at c) h g
  field-Holds s c v (int_field key at) h g = held atoi (get_int s key) v (at c) h g
  field-Holds s c v (int32_field key at) h g = held parse_int32 (get_int32 s key) v (at c) h g
  field-Holds s c v (int64_field key at) h g = held parse_int64 (get_int64 s key) v (at c) h g
  field-Holds s c v (duration_field key at) h g =
      held lib.parse_duration (get_duration lib s key) v (at c) h g
  field-Holds s c v (timeout_field key at) h g =
      held lib.parse_duration (get_duration lib s key) v (at c) h g
  field-Holds s c v (float_field key at) h g =
      held lib.parse_float (get_float64 lib s key) v (at c) h g
  field-Holds s c v (text_field key at) h g = g.1 ∙ h g.0

get_elem?-map :
    {A B : Type 0} (g : A → B) (i : ℕ) (xs : List A) (y : B)
    → get_elem? i (map g xs) ≡ some y
    → (x : A) × (get_elem? i xs ≡ some x) × (g x ≡ y)
get_elem?-map g i [] y h = ground arith
get_elem?-map g zero (x ∷ xs) y h = (x, refl, ap (from_some (g x)) h)
get_elem?-map g (suc i) (x ∷ xs) y h = get_elem?-map g i xs y h

-- A configuration that Load makes of the environment and Lint lets pass, and the i-th variable that
-- Lint reads again, where it is set: the i-th field of the list of fields is that variable's, and the
-- configuration holds in it what the text of the variable stands for, not a fallback or a default of
-- the profile. Parsing the empty text as a duration or a float fails.
pub lint-Holds :
    {F : Type 0} (lib : Library F) (drivers : List Str) (env : Environment) (c : Config F) (i : ℕ)
    (x : Variable) (v : Str)
    → lib.parse_duration [] ≡ none
    → lib.parse_float [] ≡ none
    → load lib env ≡ some c
    → lint lib drivers env c ≡ none
    → get_elem? i linted ≡ some x
    → env x.key ≡ some v
    → (f : Field F) × (get_elem? i (fields F) ≡ some f) × (variable_of f ≡ x) × Holds lib c v f
lint-Holds {F} lib drivers env c i x v d f loaded passed at set =
    let made = load-IsLoaded lib env c loaded in
    let s : Source = record { env = env; defaults = made.3 } in
    let field =
      get_elem?-map variable_of i (fields F) x (ap (get_elem? i) (variables_of_fields F) ∙ at) in
    let read = linted-Read lib drivers s c i x v d f passed at set in
    let got =
      All-at (IsGot lib s (load_from lib made.0 made.1 made.2 s)) i (fields F) field.0
        (load_from-IsGot lib made.0 made.1 made.2 s) field.1 in
    (
      field.0,
      field.1,
      field.2,
      field-Holds lib s c v field.0
          (subst (λ (y : Variable). Read lib s y.kind y.key v) (sym field.2) read)
          (subst (λ y. IsGot lib s y field.0) (sym made.4) got),
    )
