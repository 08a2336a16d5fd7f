-- ===== src/Prelude/Text.antt =====
-- Go strings: a string is the list of its bytes. The functions of package strings that the program
-- calls are here; case mapping is that of ASCII.
use Prim.Native.Nat.{ℕ, ◌+◌, ◌-◌, compare, Ordering}
use Prim.Native.Char.{code}
use Prim.Native.String.{String}
use mathlib.Core.Path.{◌≡◌, refl, ap, ◌∙◌}
use mathlib.Core.Logic.{◌↔◌}
use mathlib.Core.Bool.{Bool, true, false, ◌&&◌, ◌||◌}
use mathlib.Core.List.{List, [], ◌∷◌, ◌++◌, map, reverse, reverse_aux, reverse-reverse}
use native.Mathlib.Omega.{arith}
use superapi.Prelude.Tests.{eqb, leb, if◌then◌else◌}
use superapi.Prelude.Lists.{all, drop}

abbrev pub Str : Type 0
Str = List ℕ

-- A literal; the program's literals are ASCII, so that its code points are its bytes.
abbrev pub str : String → Str
str String.[] = []
str (String.◌∷◌ c s) = code c ∷ str s

infix 50 ◌==◌
unfoldable pub ◌==◌ : Str → Str → Bool
[] == [] = true
[] == (y ∷ ys) = false
(x ∷ xs) == [] = false
(x ∷ xs) == (y ∷ ys) = eqb x y && xs == ys

pub ==-refl : (s : Str) → (s == s) ≡ true
unfolding ◌==◌
==-refl [] = refl
==-refl (x ∷ xs) = ground (arith, ==-refl xs)

pub ==-eq : (s t : Str) → (s == t) ≡ true → s ≡ t
unfolding ◌==◌
==-eq [] [] h = refl
==-eq [] (y ∷ ys) h = cc
==-eq (x ∷ xs) [] h = cc
==-eq (x ∷ xs) (y ∷ ys) h = ground (arith, ==-eq xs ys)

pub ==_iff : (s t : Str) → ((s == t) ≡ true) ↔ (s ≡ t)
==_iff s t = (==-eq s t, λ e. rw e (==-refl t))

-- The ASCII bytes for which unicode.IsSpace holds.
abbrev pub is_ascii_space : ℕ → Bool
is_ascii_space c = eqb c 32 || leb 9 c && leb c 13

-- The other runes for which unicode.IsSpace holds, by their UTF-8 bytes: U+0085 and U+00A0; U+1680,
-- U+2000 to U+200A, U+2028, U+2029, U+202F, U+205F and U+3000.
abbrev pub is_space2 : ℕ → ℕ → Bool
is_space2 a b = eqb a 194 && (eqb b 133 || eqb b 160)

abbrev pub is_space3 : ℕ → ℕ → ℕ → Bool
is_space3 a b c =
    eqb a 225 && eqb b 154 && eqb c 128
    || eqb a 226
      && (eqb b 128 && (leb 128 c && leb c 138 || eqb c 168 || eqb c 169 || eqb c 175)
          || eqb b 129 && eqb c 159)
    || eqb a 227 && eqb b 128 && eqb c 128

-- strings.TrimLeftFunc(s, unicode.IsSpace)
unfoldable pub trim_left : Str → Str
trim_left [] = []
trim_left (a ∷ []) = if is_ascii_space a then [] else a ∷ []
trim_left (a ∷ b ∷ []) =
    let rest = trim_left (b ∷ []) in
    if is_ascii_space a then rest else if is_space2 a b then [] else a ∷ b ∷ []
trim_left (a ∷ b ∷ c ∷ s) =
    let rest1 = trim_left (b ∷ c ∷ s) in
    let rest2 = trim_left (c ∷ s) in
    let rest3 = trim_left s in
    if is_ascii_space a
    then rest1
    else if is_space2 a b
    then rest2
    else if is_space3 a b c
    then rest3
    else a ∷ b ∷ c ∷ s

-- strings.TrimRightFunc(s, unicode.IsSpace), on the reversed bytes: a rune's bytes come last first.
unfoldable pub trim_back : Str → Str
trim_back [] = []
trim_back (a ∷ []) = if is_ascii_space a then [] else a ∷ []
trim_back (b ∷ a ∷ []) =
    let rest = trim_back (a ∷ []) in
    if is_ascii_space b then rest else if is_space2 a b then [] else b ∷ a ∷ []
trim_back (c ∷ b ∷ a ∷ s) =
    let rest1 = trim_back (b ∷ a ∷ s) in
    let rest2 = trim_back (a ∷ s) in
    let rest3 = trim_back s in
    if is_ascii_space c
    then rest1
    else if is_space2 b c
    then rest2
    else if is_space3 a b c
    then rest3
    else c ∷ b ∷ a ∷ s

-- strings.TrimSpace
unfoldable pub trim_space : Str → Str
unfolding trim_left trim_back
trim_space s = reverse (trim_back (reverse (trim_left s)))

-- A byte that trimming leaves alone at either end.
abbrev pub is_plain : ℕ → Bool
is_plain c = leb 33 c && leb c 126

trim_left_plain : (c : ℕ) (s : Str) → is_plain c ≡ true → trim_left (c ∷ s) ≡ c ∷ s
unfolding trim_left
trim_left_plain c [] h = ground arith
trim_left_plain c (b ∷ []) h = ground arith
trim_left_plain c (b ∷ d ∷ s) h = ground arith

trim_back_plain : (c : ℕ) (s : Str) → is_plain c ≡ true → trim_back (c ∷ s) ≡ c ∷ s
unfolding trim_back
trim_back_plain c [] h = ground arith
trim_back_plain c (b ∷ []) h = ground arith
trim_back_plain c (b ∷ d ∷ s) h = ground arith

all-reverse_aux :
    (s t : Str)
    → all is_plain s ≡ true
    → all is_plain t ≡ true
    → all is_plain (reverse_aux s t) ≡ true
all-reverse_aux [] t h k = k
all-reverse_aux (c ∷ s) t h k = all-reverse_aux s (c ∷ t) (ground arith) (ground arith)

trim_back-plain_all : (s : Str) → all is_plain s ≡ true → trim_back s ≡ s
unfolding trim_back
trim_back-plain_all [] h = refl
trim_back-plain_all (c ∷ s) h = trim_back_plain c s (ground arith)

trim_left-plain_all : (s : Str) → all is_plain s ≡ true → trim_left s ≡ s
unfolding trim_left
trim_left-plain_all [] h = refl
trim_left-plain_all (c ∷ s) h = trim_left_plain c s (ground arith)

pub trim_space-plain : (s : Str) → all is_plain s ≡ true → trim_space s ≡ s
unfolding trim_space
trim_space-plain s h =
    ap (λ t. reverse (trim_back (reverse t))) (trim_left-plain_all s h)
    ∙ ap reverse (trim_back-plain_all (reverse s) (all-reverse_aux s [] h refl))
    ∙ reverse-reverse s

abbrev pub lower : ℕ → ℕ
lower c = if leb 65 c && leb c 90 then c + 32 else c

abbrev pub upper : ℕ → ℕ
upper c = if leb 97 c && leb c 122 then c - 32 else c

-- strings.ToLower, strings.ToUpper, strings.EqualFold
unfoldable pub to_lower : Str → Str
to_lower s = map lower s

unfoldable pub to_upper : Str → Str
to_upper s = map upper s

unfoldable pub equal_fold : Str → Str → Bool
unfolding to_lower ◌==◌
equal_fold s t = to_lower s == to_lower t

-- strings.HasPrefix
unfoldable pub has_prefix : Str → Str → Bool
has_prefix s [] = true
has_prefix [] (p ∷ ps) = false
has_prefix (c ∷ s) (p ∷ ps) = eqb c p && has_prefix s ps

-- strings.Contains
unfoldable pub contains : Str → Str → Bool
unfolding has_prefix
contains [] p = has_prefix [] p
contains (c ∷ s) p = has_prefix (c ∷ s) p || contains s p

-- The order of sort.Strings: s < t, byte by byte.
unfoldable pub str_lt : Str → Str → Bool
str_lt s [] = false
str_lt [] (y ∷ ys) = true
str_lt (x ∷ xs) (y ∷ ys) = elim (compare x y) [
  | Ordering.lt ↦ true
  | Ordering.eq ↦ str_lt xs ys
  | Ordering.gt ↦ false
]

trims :
    (trim_space (str "  a b\t\n") ≡ str "a b")
    × (trim_space (194 ∷ 160 ∷ 97 ∷ 226 ∷ 128 ∷ 131 ∷ []) ≡ str "a")
unfolding trim_space
trims = (refl, refl)

folds :
    (equal_fold (str "Bearer") (str "bEARER") ≡ true) × (contains (str "/a/{t}") (str "{t}") ≡ true)
unfolding equal_fold contains
folds = (refl, refl)

pub append_cancel : (xs a b : Str) → xs ++ a ≡ xs ++ b → a ≡ b
append_cancel [] a b h = h
append_cancel (x ∷ xs) a b h = append_cancel xs a b (ap (drop 1) h)

pub append_assoc : (xs ys zs : Str) → (xs ++ ys) ++ zs ≡ xs ++ (ys ++ zs)
append_assoc [] ys zs = refl
append_assoc (x ∷ xs) ys zs = ap (λ s. x ∷ s) (append_assoc xs ys zs)

pub append_nil : (xs : Str) → xs ++ [] ≡ xs
append_nil [] = refl
append_nil (x ∷ xs) = ap (λ s. x ∷ s) (append_nil xs)
