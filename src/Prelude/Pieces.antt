-- ===== src/Prelude/Pieces.antt =====
-- Package strings: Split at a byte, Cut, ContainsAny, Count and Replace of a text that cannot overlap
-- with itself.
use Prim.Native.Nat.{ℕ, ◌+◌}
use mathlib.Core.Path.{◌≡◌, refl}
use mathlib.Core.Bool.{Bool, true, false}
use mathlib.Core.Option.{Option, none, some}
use mathlib.Core.List.{List, [], ◌∷◌, ◌++◌}
use superapi.Prelude.Tests.{eqb, if◌then◌else◌}
use superapi.Prelude.Lists.{any, drop, length}
use superapi.Prelude.Text.{Str, str, has_prefix}

abbrev onto_first : ℕ → List Str → List Str
onto_first c [] = (c ∷ []) ∷ []
onto_first c (piece ∷ pieces) = (c ∷ piece) ∷ pieces

-- strings.Split(s, b)
unfoldable pub split_byte : ℕ → Str → List Str
split_byte b [] = [] ∷ []
split_byte b (c ∷ s) = let rest = split_byte b s in if eqb c b then [] ∷ rest else onto_first c rest

abbrev in_front : ℕ → Option (Str × Str) → Option (Str × Str)
in_front c none = none
in_front c (some (before, after)) = some (c ∷ before, after)

-- strings.Cut(s, b): what stands before and after the first b.
unfoldable pub cut_byte : ℕ → Str → Option (Str × Str)
cut_byte b [] = none
cut_byte b (c ∷ s) = let rest = cut_byte b s in if eqb c b then some ([], s) else in_front c rest

unfoldable pub contains_any : Str → Str → Bool
contains_any s chars = any (λ c. any (eqb c) chars) s

unfoldable pub count : Str → Str → ℕ
unfolding has_prefix
count [] p = 0
count (c ∷ s) p = (if has_prefix (c ∷ s) p then 1 else 0) + count s p

-- strings.Replace(s, old, new, 1)
unfoldable pub replace_first : Str → Str → Str → Str
unfolding has_prefix
replace_first [] old new = []
replace_first (c ∷ s) old new =
    let rest = replace_first s old new in
    if has_prefix (c ∷ s) old then new ++ drop (length old) (c ∷ s) else c ∷ rest

pieces :
    (split_byte b',' (str "a,b,,c") ≡ str "a" ∷ str "b" ∷ [] ∷ str "c" ∷ [])
    × (split_byte b',' [] ≡ [] ∷ [])
    × (cut_byte b':' (str "k:v:w") ≡ some (str "k", str "v:w"))
    × (cut_byte b':' (str "kv") ≡ none)
    × (contains_any (str "a b") (str " /") ≡ true)
    × (contains_any (str "ab") (str " /") ≡ false)
    × (count (str "x{t}y{t}") (str "{t}") ≡ 2)
    × (replace_first (str "x{t}y{t}") (str "{t}") (str "t") ≡ str "xty{t}")
unfolding split_byte cut_byte contains_any count replace_first
pieces = (refl, refl, refl, refl, refl, refl, refl, refl)
