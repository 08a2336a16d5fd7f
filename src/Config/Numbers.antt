-- ===== src/Config/Numbers.antt =====
-- strconv.ParseBool and strconv.ParseInt to base 10, and Atoi, which is ParseInt at 64 bits.
use superapi.Prelude.{
  ℕ, ◌+◌, ◌-◌, ◌*◌, ◌^◌, Str, str, ◌≡◌, refl, Bool, true, false, ◌&&◌, Option, none, some, [], ◌∷◌,
  ◌==◌, eqb, leb, if◌then◌else◌, mem,
}
use superapi.Prelude.Integer.{ℤ, pos, negsuc, negated}

unfoldable pub parse_bool : Str → Option Bool
unfolding mem ◌==◌
parse_bool s =
    if mem s (str "1" ∷ str "t" ∷ str "T" ∷ str "true" ∷ str "TRUE" ∷ str "True" ∷ [])
    then some true
    else if mem s (str "0" ∷ str "f" ∷ str "F" ∷ str "false" ∷ str "FALSE" ∷ str "False" ∷ [])
    then some false
    else none

-- The value of digits, after what was read before.
unfoldable pub digits_value : ℕ → Str → Option ℕ
digits_value before [] = some before
digits_value before (c ∷ s) =
    let rest = digits_value (10 * before + (c - b'0')) s in
    if leb b'0' c && leb c b'9' then rest else none

unfoldable pub parse_digits : Str → Option ℕ
unfolding digits_value
parse_digits [] = none
parse_digits (c ∷ s) = digits_value 0 (c ∷ s)

abbrev at_most : ℕ → (ℕ → ℤ) → Option ℕ → Option ℤ
at_most bound sign none = none
at_most bound sign (some n) = if leb n bound then some (sign n) else none

-- ParseInt(s, 10, bits), where 2 ^ (bits - 1) is `half`.
unfoldable pub parse_int : ℕ → Str → Option ℤ
unfolding parse_digits
parse_int half [] = none
parse_int half (c ∷ s) =
    if eqb c b'-'
    then at_most half negated (parse_digits s)
    else if eqb c b'+'
    then at_most (half - 1) pos (parse_digits s)
    else at_most (half - 1) pos (parse_digits (c ∷ s))

unfoldable pub atoi : Str → Option ℤ
unfolding parse_int
atoi = parse_int (2 ^ 63)

unfoldable pub parse_int64 : Str → Option ℤ
unfolding parse_int
parse_int64 = parse_int (2 ^ 63)

unfoldable pub parse_int32 : Str → Option ℤ
unfolding parse_int
parse_int32 = parse_int (2 ^ 31)

numbers_read :
    (atoi (str "42") ≡ some (pos 42))
    × (atoi (str "-1") ≡ some (negsuc 0))
    × (atoi (str "+7") ≡ some (pos 7))
    × (atoi (str "-") ≡ none)
    × (atoi (str "4x") ≡ none)
    × (parse_int32 (str "2147483648") ≡ none)
    × (parse_int32 (str "-2147483648") ≡ some (negsuc 2147483647))
    × (parse_bool (str "True") ≡ some true)
    × (parse_bool (str "yes") ≡ none)
unfolding atoi parse_int32 parse_bool
numbers_read = (refl, refl, refl, refl, refl, refl, refl, refl, refl)
