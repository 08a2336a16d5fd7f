-- ===== src/Config/Reads.antt =====
-- The variables that Lint reads again: one that passes is read by its getter as it stands.
use superapi.Prelude.{
  ℕ, Str, String, false, ◌≡◌, refl, Option, none, some, List, [], ◌∷◌, ◌==◌, All, trim_space, arith,
  inl, inr, Option-cases,
}
use superapi.Prelude.Places.{get_elem?, All-at}
use superapi.Config.Numbers.{parse_bool, atoi, parse_int32, parse_int64}
use superapi.Config.Env.{
  Library, Environment, os_getenv, Source, configured, getenv, get_parsed, get_bool, get_int,
  get_int32, get_int64, get_duration, get_float64, badly_set,
}
use superapi.Config.Types.{Config}
use superapi.Config.Guards.{Passes, All-append-Passes}
use superapi.Config.Lint.{
  Kind, a_bool, an_int, an_int32, an_int64, a_float, a_duration, a_timeout, a_text, Variable,
  linted, variable_tests, lint_environment, blank_if_set, lint_parts, lint,
}
use superapi.Config.Production.{lint-Passes}

-- The getter gives what the text stands for, whatever the fallback.
abbrev pub ReadBy : {A : Type 0} → (Str → Option A) → (A → A) → Str → Type 0
ReadBy {A} parse get v = (a : A) × (parse v ≡ some a) × ((fallback : A) → get fallback ≡ a)

abbrev pub Read : {F : Type 0} → Library F → Source → Kind → String → Str → Type 0
Read lib s a_bool key v = ReadBy parse_bool (get_bool s key) v
Read lib s an_int key v = ReadBy atoi (get_int s key) v
Read lib s an_int32 key v = ReadBy parse_int32 (get_int32 s key) v
Read lib s an_int64 key v = ReadBy parse_int64 (get_int64 s key) v
Read lib s a_float key v = ReadBy lib.parse_float (get_float64 lib s key) v
Read lib s a_duration key v = ReadBy lib.parse_duration (get_duration lib s key) v
Read lib s a_timeout key v = ReadBy lib.parse_duration (get_duration lib s key) v
Read lib s a_text key v = (fallback : Str) → getenv s key fallback ≡ v

not_badly_set :
    {A : Type 0} (parse : Str → Option A) (v : Str) (o : Option Str)
    → o ≡ some v
    → badly_set parse o ≡ false
    → (a : A) × (parse v ≡ some a)
not_badly_set parse v o e h = elim (Option-cases (parse v)) [
  | inl bad ↦ absurd (ground arith)
  | inr found ↦ found
]

full :
    {A : Type 0} (parse : Str → Option A) (v : Str) (a : A)
    → parse [] ≡ none
    → parse v ≡ some a
    → v == [] ≡ false
unfolding ◌==◌
full parse [] a e h = ground arith
full parse (c ∷ v) a e h = refl

not_blank : (v : Str) → trim_space v == [] ≡ false → v == [] ≡ false
unfolding trim_space ◌==◌
not_blank [] h = h
not_blank (c ∷ v) h = refl

parse_bool-empty : parse_bool [] ≡ none
unfolding parse_bool
parse_bool-empty = refl

atoi-empty : atoi [] ≡ none
unfolding atoi
atoi-empty = refl

parse_int32-empty : parse_int32 [] ≡ none
unfolding parse_int32
parse_int32-empty = refl

parse_int64-empty : parse_int64 [] ≡ none
unfolding parse_int64
parse_int64-empty = refl

module _ (s : Source) (key : String) (v : Str) (set : s.env key ≡ some v) where
  configured-set : v == [] ≡ false → configured s key ≡ v
  unfolding configured os_getenv
  configured-set h = rw (set, h) refl

  read_as_set :
      {A : Type 0} (parse : Str → Option A) (a : A)
      → parse [] ≡ none
      → parse v ≡ some a
      → (fallback : A) → get_parsed parse s key fallback ≡ a
  unfolding get_parsed
  read_as_set parse a e h fallback =
      let some_text = full parse v a e h in rw (configured-set some_text, some_text, h) refl

  set_parsed :
      {A : Type 0} (parse : Str → Option A)
      → parse [] ≡ none
      → badly_set parse (s.env key) ≡ false
      → ReadBy parse (get_parsed parse s key) v
  set_parsed parse e h =
      let found = not_badly_set parse v (s.env key) set h in
      (found.0, found.1, read_as_set parse found.0 e found.1)

  set_text : blank_if_set (s.env key) ≡ false → (fallback : Str) → getenv s key fallback ≡ v
  unfolding getenv
  set_text h fallback =
      let some_text = not_blank v (rw set at h) in rw (configured-set some_text, some_text) refl

  module _ {F : Type 0} (lib : Library F) where
    variable-Read :
        lib.parse_duration [] ≡ none
        → lib.parse_float [] ≡ none
        → (kind : Kind) → All Passes (variable_tests lib s.env kind key)
        → Read lib s kind key v
    unfolding variable_tests get_bool get_int get_int32 get_int64 get_duration get_float64
    variable-Read d f a_bool h = set_parsed parse_bool parse_bool-empty h.0
    variable-Read d f an_int h = set_parsed atoi atoi-empty h.0
    variable-Read d f an_int32 h = set_parsed parse_int32 parse_int32-empty h.0
    variable-Read d f an_int64 h = set_parsed parse_int64 parse_int64-empty h.0
    variable-Read d f a_float h = set_parsed lib.parse_float f h.0
    variable-Read d f a_duration h = set_parsed lib.parse_duration d h.0
    variable-Read d f a_timeout h = set_parsed lib.parse_duration d h.0
    variable-Read d f a_text h = set_text h.0

variable-Passes :
    {F : Type 0} (lib : Library F) (env : Environment) (xs : List Variable)
    → All Passes (lint_environment lib env xs)
    → All (λ x. All Passes (variable_tests lib env x.kind x.key)) xs
unfolding lint_environment
variable-Passes lib env [] h = tt
variable-Passes lib env (x ∷ xs) h =
    let split =
      All-append-Passes (variable_tests lib env x.kind x.key) (lint_environment lib env xs) h in
    (split.0, variable-Passes lib env xs split.1)

pub linted-Read :
    {F : Type 0} (lib : Library F) (drivers : List Str) (s : Source) (c : Config F) (i : ℕ)
    (x : Variable) (v : Str)
    → lib.parse_duration [] ≡ none
    → lib.parse_float [] ≡ none
    → lint lib drivers s.env c ≡ none
    → get_elem? i linted ≡ some x
    → s.env x.key ≡ some v
    → Read lib s x.kind x.key v
linted-Read lib drivers s c i x v d f passed at set =
    let all_parts = lint-Passes lib drivers s.env c passed in
    let env = All-at (All Passes) 10 (lint_parts lib drivers s.env c) _ all_parts refl in
    let tests =
      All-at (λ y. All Passes (variable_tests lib s.env y.kind y.key)) i linted x
        (variable-Passes lib s.env linted env) at in
    variable-Read s x.key v set lib d f x.kind tests
