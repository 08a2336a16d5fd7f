-- ===== src/Prelude/Utf8.antt =====
-- utf8.Valid: what encoding/json keeps of a string as it is.
use Prim.Native.Nat.{ℕ}
use mathlib.Core.Path.{◌≡◌, refl}
use mathlib.Core.Bool.{Bool, true, false, ◌&&◌, ◌||◌}
use mathlib.Core.List.{[], ◌∷◌}
use superapi.Prelude.Tests.{ltb, leb, eqb}
use superapi.Prelude.Text.{Str, str}

abbrev between : ℕ → ℕ → ℕ → Bool
between low high c = leb low c && leb c high

abbrev follows : ℕ → Bool
follows c = between 128 191 c

abbrev starts_two : ℕ → ℕ → Bool
starts_two a b = between 194 223 a && follows b

-- The shortest forms only, and no surrogates.
abbrev starts_three : ℕ → ℕ → Bool
starts_three a b =
    eqb a 224 && between 160 191 b
    || (between 225 236 a || between 238 239 a) && follows b
    || eqb a 237 && between 128 159 b

abbrev starts_four : ℕ → ℕ → Bool
starts_four a b =
    eqb a 240 && between 144 191 b
    || between 241 243 a && follows b
    || eqb a 244 && between 128 143 b

unfoldable pub valid_utf8 : Str → Bool
valid_utf8 [] = true
valid_utf8 (a ∷ []) = ltb a 128
valid_utf8 (a ∷ b ∷ []) = let rest1 = valid_utf8 (b ∷ []) in ltb a 128 && rest1 || starts_two a b
valid_utf8 (a ∷ b ∷ c ∷ []) =
    let rest1 = valid_utf8 (b ∷ c ∷ []) in
    let rest2 = valid_utf8 (c ∷ []) in
    ltb a 128 && rest1 || starts_two a b && rest2 || starts_three a b && follows c
valid_utf8 (a ∷ b ∷ c ∷ d ∷ s) =
    let rest1 = valid_utf8 (b ∷ c ∷ d ∷ s) in
    let rest2 = valid_utf8 (c ∷ d ∷ s) in
    let rest3 = valid_utf8 (d ∷ s) in
    let rest4 = valid_utf8 s in
    ltb a 128 && rest1
    || starts_two a b && rest2
    || starts_three a b && follows c && rest3
    || starts_four a b && follows c && follows d && rest4

texts :
    (valid_utf8 (str "text/html") ≡ true)
    × (valid_utf8 (195 ∷ 164 ∷ 226 ∷ 130 ∷ 172 ∷ 240 ∷ 159 ∷ 152 ∷ 128 ∷ []) ≡ true)
    × (valid_utf8 (97 ∷ 255 ∷ []) ≡ false)
    × (valid_utf8 (237 ∷ 160 ∷ 128 ∷ []) ≡ false)
unfolding valid_utf8
texts = (refl, refl, refl, refl)
