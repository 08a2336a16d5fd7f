-- ===== src/Cache/Decimal.antt =====
-- strconv.FormatInt to base 10, of a number that is not negative. The digits are found on fuel: the
-- number itself is enough, since it shrinks with each digit.
use superapi.Prelude.{
  ℕ, zero, suc, ◌+◌, ◌-◌, ◌*◌, ◌/◌, ◌%◌, ◌≤◌, Str, ◌≡◌, refl, ap, sym, ◌∙◌, Bool, true, not, [],
  ◌∷◌, ◌++◌, ltb, eqb, all, if◌then◌else◌, arith, inl, inr, Bool-cases,
}

unfoldable pub digits_from : ℕ → ℕ → Str
digits_from zero n = (b'0' + n % 10) ∷ []
digits_from (suc fuel) n =
    let front = digits_from fuel (n / 10) in
    if ltb n 10 then (b'0' + n) ∷ [] else front ++ (b'0' + n % 10) ∷ []

unfoldable pub format_int : ℕ → Str
unfolding digits_from
format_int n = digits_from n n

-- The number that a string of digits stands for, after what was read before.
value_from : ℕ → Str → ℕ
value_from before [] = before
value_from before (c ∷ s) = value_from (10 * before + (c - b'0')) s

value_from-append :
    (before : ℕ) (s : Str) (c : ℕ)
    → value_from before (s ++ c ∷ []) ≡ 10 * value_from before s + (c - b'0')
unfolding value_from
value_from-append before [] c = refl
value_from-append before (d ∷ s) c = value_from-append (10 * before + (d - b'0')) s c

value_from-digits_from : (fuel n : ℕ) → n ≤ fuel → value_from 0 (digits_from fuel n) ≡ n
unfolding value_from digits_from
value_from-digits_from zero n h = omega (arith, h)
value_from-digits_from (suc fuel) n h = elim (Bool-cases (ltb n 10)) [
  | inl small ↦ rw small (omega arith)
  | inr large ↦
      let bound : 10 ≤ n = ground arith in
      let ih = value_from-digits_from fuel (n / 10) (omega arith) in
      let last = value_from-append 0 (digits_from fuel (n / 10)) (b'0' + n % 10) in
      rw large (last ∙ omega (arith, ih))
]

-- Numbers that are not the same have decimals that are not the same.
pub format_int-injective : (m n : ℕ) → format_int m ≡ format_int n → m ≡ n
unfolding format_int
format_int-injective m n h =
    sym (value_from-digits_from m m (omega arith))
    ∙ ap (value_from 0) h
    ∙ value_from-digits_from n n (omega arith)

abbrev pub is_not_comma : ℕ → Bool
is_not_comma c = not (eqb c b',')

all-append :
    (s : Str) (c : ℕ)
    → all is_not_comma s ≡ true
    → is_not_comma c ≡ true
    → all is_not_comma (s ++ c ∷ []) ≡ true
all-append [] c h k = ground arith
all-append (d ∷ s) c h k = ground (arith, all-append s c)

digits_from-no_comma : (fuel n : ℕ) → all is_not_comma (digits_from fuel n) ≡ true
unfolding digits_from
digits_from-no_comma zero n = ground arith
digits_from-no_comma (suc fuel) n = elim (Bool-cases (ltb n 10)) [
  | inl small ↦ rw small (ground arith)
  | inr large ↦ rw large (
      all-append (digits_from fuel (n / 10)) (b'0' + n % 10) (digits_from-no_comma fuel (n / 10))
        (ground arith))
]

pub format_int-no_comma : (n : ℕ) → all is_not_comma (format_int n) ≡ true
unfolding format_int
format_int-no_comma n = digits_from-no_comma n n
