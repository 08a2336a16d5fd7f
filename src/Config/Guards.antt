-- ===== src/Config/Guards.antt =====
-- config.go: a lint is a list of tests, of which the first that fails gives the error. The values that
-- a message quotes are left out of it.
use superapi.Prelude.{
  ℕ, zero, suc, drop, Str, str, String, Bool, true, false, not, ◌||◌, ◌≡◌, Option, none, some, List,
  [], ◌∷◌, ◌++◌, ◌==◌, any, All, eqb, if◌then◌else◌, trim_space, equal_fold, contains, arith,
}
use superapi.Prelude.Places.{get_elem?, All-at}
use superapi.Prelude.Pieces.{contains_any}
use superapi.Config.Env.{Library, Url}

pub record Message : Type 0 where
  pub about : String
  pub what : String

pub record Guard : Type 0 where
  pub refused : Bool
  pub message : Message

-- A message of a variable or a label, and one that stands alone.
abbrev pub refuse_of : String → Bool → String → Guard
refuse_of about refused what = record {
  refused = refused;
  message = record { about = about; what = what };
}

abbrev pub refuse : Bool → String → Guard
refuse = refuse_of ""

unfoldable pub first_error : List Guard → Option Message
first_error [] = none
first_error (g ∷ gs) = if g.refused then some g.message else first_error gs

abbrev pub Passes : Guard → Type 0
Passes g = g.refused ≡ false

pub first_error-none : (gs : List Guard) → first_error gs ≡ none → All Passes gs
unfolding first_error
first_error-none [] h = tt
first_error-none (g ∷ gs) h = ground (arith, first_error-none gs)

pub All-append-Passes : (xs ys : List Guard) → All Passes (xs ++ ys) → All Passes xs × All Passes ys
All-append-Passes [] ys h = (tt, h)
All-append-Passes (x ∷ xs) ys h = let rest = All-append-Passes xs ys h.1 in ((h.0, rest.0), rest.1)

pub All-drop-Passes : (n : ℕ) (gs : List Guard) → All Passes gs → All Passes (drop n gs)
All-drop-Passes zero gs h = h
All-drop-Passes (suc n) [] h = tt
All-drop-Passes (suc n) (g ∷ gs) h = All-drop-Passes n gs h.1

-- The test at a place of the list.
pub Passes-at :
    (n : ℕ) (gs : List Guard) (g : Guard) → All Passes gs → get_elem? n gs ≡ some g → Passes g
Passes-at = All-at Passes

-- Lists of tests, one after the other.
unfoldable pub concat : List (List Guard) → List Guard
concat [] = []
concat (gs ∷ parts) = gs ++ concat parts

pub All-concat : (parts : List (List Guard)) → All Passes (concat parts) → All (All Passes) parts
unfolding concat
All-concat [] h = tt
All-concat (gs ∷ parts) h =
    let split = All-append-Passes gs (concat parts) h in (split.0, All-concat parts split.1)

-- The tests of each item in turn.
unfoldable pub each : (Str → List Guard) → List Str → List Guard
each tests [] = []
each tests (item ∷ items) = tests item ++ each tests items

-- An error that a nested lint gives.
abbrev pub passed_on : Option Message → List Guard
passed_on none = []
passed_on (some m) = record { refused = true; message = m } ∷ []

unfoldable pub contains_wildcard : List Str → Bool
unfolding trim_space ◌==◌
contains_wildcard items = any (λ item. trim_space item == str "*") items

abbrev origin_tests : String → Option Url → List Guard
origin_tests label none = refuse_of label true "contains invalid origin" ∷ []
origin_tests label (some u) =
    refuse_of label (u.scheme == [] || u.host == []) "contains invalid origin"
    ∷ refuse_of label (not (u.path == []) || not (u.raw_query == []) || not (u.fragment == []))
        "origin must not include path, query, or fragment"
    ∷ []

unfoldable pub validate_origin : {F : Type 0} → Library F → String → Str → List Guard
unfolding trim_space ◌==◌ equal_fold
validate_origin lib label origin =
    let trimmed = trim_space origin in
    if trimmed == [] || trimmed == str "*" || equal_fold trimmed (str "null")
    then []
    else origin_tests label (lib.parse_url trimmed)

unfoldable pub validate_origins : {F : Type 0} → Library F → String → List Str → List Guard
unfolding validate_origin each
validate_origins lib label = each (validate_origin lib label)

-- Space, tab, carriage return and line feed.
abbrev pub blanks : Str
blanks = 32 ∷ 9 ∷ 13 ∷ 10 ∷ []

unfoldable pub validate_token : String → Str → List Guard
unfolding trim_space ◌==◌ contains_any contains
validate_token label item =
    let trimmed = trim_space item in
    if trimmed == []
    then []
    else refuse_of label (contains_any trimmed blanks || contains trimmed (str ","))
        "contains invalid token"
      ∷ []

unfoldable pub validate_tokens : String → List Str → List Guard
unfolding validate_token each
validate_tokens label = each (validate_token label)

unfoldable pub validate_trusted_proxy : {F : Type 0} → Library F → Str → List Guard
unfolding trim_space ◌==◌ contains
validate_trusted_proxy lib item =
    let trimmed = trim_space item in
    if trimmed == []
    then []
    else if contains trimmed (str "/")
    then refuse (not (lib.is_cidr trimmed)) "http trusted proxy is invalid cidr" ∷ []
    else refuse (not (lib.is_ip trimmed)) "http trusted proxy is invalid ip" ∷ []

unfoldable pub validate_trusted_proxies : {F : Type 0} → Library F → List Str → List Guard
unfolding validate_trusted_proxy each
validate_trusted_proxies lib = each (validate_trusted_proxy lib)

abbrev pub starts_with : ℕ → Str → Bool
starts_with b [] = false
starts_with b (c ∷ s) = eqb c b

-- A path to exclude: not blank, and absolute.
unfoldable pub exclude_path : String → Str → List Guard
unfolding trim_space ◌==◌
exclude_path label p =
    refuse_of label (trim_space p == []) "exclude path cannot be empty"
    ∷ refuse_of label (not (starts_with b'/' p)) "exclude path must start with '/'"
    ∷ []
