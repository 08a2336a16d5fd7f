-- ===== src/Prelude/Float.antt =====
-- time.Duration.Seconds in float64, and math.Ceil of it: a float64 has 53 binary digits, and the
-- nearest one is taken, the even one of two. The unit here is 2 ^ 82 to the second, which every
-- quotient by 1e9 is a multiple of.
use native.Mathlib.Nat.{mod-lt, mod-add-div', mul-div_cancel, mul-mod_left}
use Prim.Native.Nat.{ℕ, zero, suc, ◌+◌, ◌*◌, ◌-◌, ◌/◌, ◌%◌, ◌^◌, ◌≤◌, ◌<◌}
use mathlib.Core.Path.{◌≡◌, refl, ap, ◌∙◌}
use mathlib.Core.Logic.{◌⊎◌, inl, inr}
use mathlib.Core.Bool.{true}
use native.Mathlib.Omega.{arith}
use superapi.Prelude.Tests.{Bool-cases, ltb, eqb, if◌then◌else◌}

abbrev nearest_of : ℕ → ℕ → ℕ → ℕ
nearest_of q r d = if ltb (2 * r) d then q else if ltb d (2 * r) then suc q else q + q % 2

-- The integer nearest to n / d.
unfoldable pub nearest : ℕ → ℕ → ℕ
nearest n d = nearest_of (n / d) (n % d) d

-- n / d, rounded to 53 binary digits; the bound is on the digits beyond them.
unfoldable pub round53 : ℕ → ℕ → ℕ → ℕ
unfolding nearest
round53 zero n d = nearest n d
round53 (suc digits) n d =
    let coarser = round53 digits n (2 * d) in
    if ltb n (d * 2 ^ 53) then nearest n d else 2 * coarser

abbrev pub unit : ℕ
unit = 2 ^ 82

-- float64(sec) + float64(nsec) / 1e9
unfoldable pub float_seconds : ℕ → ℕ
unfolding round53
float_seconds duration =
    round53 64 (duration / 1000000000 * unit + round53 32 (duration % 1000000000 * unit) 1000000000)
      1

-- int of it
unfoldable pub whole_seconds : ℕ → ℕ
unfolding float_seconds
whole_seconds duration = float_seconds duration / unit

-- math.Ceil of it
unfoldable pub ceil_seconds : ℕ → ℕ
unfolding float_seconds
ceil_seconds duration = (float_seconds duration + (unit - 1)) / unit

-- At most half of e away from n, both times d.
abbrev Close : ℕ → ℕ → ℕ → ℕ → Type 0
Close n d r e = (2 * (r * d) ≤ 2 * n + e) × (2 * n ≤ 2 * (r * d) + e)

parity : (q : ℕ) → (q % 2 ≡ 0) ⊎ (q % 2 ≡ 1)
parity q = ground arith

nearest_of-Close :
    (n d q r : ℕ) (b : ℕ) → r < d → r + b ≡ n → b ≡ q * d → Close n d (nearest_of q r d) d
nearest_of-Close n d q r b small split whole = elim (Bool-cases (ltb (2 * r) d)) [
  | inl down ↦ rw down (grind arith)
  | inr other ↦ elim (Bool-cases (ltb d (2 * r))) [
    | inl up ↦ rw other (rw up (grind arith))
    | inr tie ↦ elim (parity q) [
      | inl even ↦ rw other (rw tie (rw even (grind arith)))
      | inr odd ↦ rw other (rw tie (rw odd (grind arith)))
    ]
  ]
]

nearest-Close : (n d : ℕ) → 0 < d → Close n d (nearest n d) d
unfolding nearest
nearest-Close n d h =
    nearest_of-Close n d (n / d) (n % d) (n / d * d) (mod-lt n h) (mod-add-div' n d) refl

rounds_none : (x d : ℕ) → 0 < d → nearest_of x 0 d ≡ x
rounds_none x d h = ground arith

nearest-exact : (x d : ℕ) → 0 < d → nearest (x * d) d ≡ x
unfolding nearest
nearest-exact x d h =
    ap (λ q. nearest_of q (x * d % d) d) (mul-div_cancel x h)
    ∙ ap (λ r. nearest_of x r d) (mul-mod_left x d)
    ∙ rounds_none x d h

-- The error of a rounding is half a unit, or the 2 ^ 53rd part.
abbrev IsRounded : ℕ → ℕ → ℕ → Type 0
IsRounded n d r = (e : ℕ) × Close n d r e × ((e ≡ d) ⊎ (e * 2 ^ 52 ≤ n))

coarser-IsRounded :
    (n d r s b : ℕ)
    → d * 2 ^ 53 ≤ n
    → b ≡ r * (2 * d)
    → s * d ≡ b
    → IsRounded n (2 * d) r
    → IsRounded n d s
coarser-IsRounded n d r s b large whole same (e, (low, high), inl unit_error) =
    (e, (grind arith, grind arith), inr (omega arith))
coarser-IsRounded n d r s b large whole same (e, (low, high), inr part) =
    (e, (grind arith, grind arith), inr part)

round53-IsRounded : (digits n d : ℕ) → 0 < d → IsRounded n d (round53 digits n d)
unfolding round53
round53-IsRounded zero n d h = (d, nearest-Close n d h, inl refl)
round53-IsRounded (suc digits) n d h = elim (Bool-cases (ltb n (d * 2 ^ 53))) [
  | inl small ↦ rw small (d, nearest-Close n d h, inl refl)
  | inr large ↦
      let rest = round53-IsRounded digits n (2 * d) (omega arith) in
      let r = round53 digits n (2 * d) in
      rw large
        (coarser-IsRounded n d r (2 * r) (r * (2 * d)) (ground arith) refl (grind arith) rest)
]

scaled : (c e d : ℕ) → 0 < d → c < e → c * d < e * d
scaled c e d h k = grind arith

fits : (c d : ℕ) → 0 < d → c < 2 ^ 53 → ltb (c * d) (d * 2 ^ 53) ≡ true
fits c d h k = ground (arith, scaled c (2 ^ 53) d h k)

halved : (x d : ℕ) → 2 * x * d ≡ x * (2 * d)
halved x d = grind arith

doubled : ℕ → ℕ → ℕ
doubled zero c = c
doubled (suc m) c = 2 * doubled m c

-- What has 53 digits, doubled some times, stays.
round53-exact :
    (digits c m d : ℕ) → 0 < d → c < 2 ^ 53 → round53 digits (doubled m c * d) d ≡ doubled m c
unfolding round53 doubled
round53-exact zero c m d h k = nearest-exact (doubled m c) d h
round53-exact (suc digits) c zero d h k =
    let small : ltb (c * d) (d * 2 ^ 53) ≡ true = fits c d h k in rw small (nearest-exact c d h)
round53-exact (suc digits) c (suc m) d h k =
    elim (Bool-cases (ltb (2 * doubled m c * d) (d * 2 ^ 53))) [
      | inl small ↦ rw small (nearest-exact (2 * doubled m c) d h)
      | inr large ↦
          let rest = round53-exact digits c m (2 * d) (omega arith) k in
          rw large
            (ap (λ n. 2 * round53 digits n (2 * d)) (halved (doubled m c) d) ∙ ap (λ x. 2 * x) rest)
    ]

unit-doubled : (c : ℕ) → doubled 82 c ≡ c * unit
unfolding doubled
unit-doubled c = omega arith

abbrev billion : ℕ
billion = 1000000000

quotient_range :
    (nsec q : ℕ)
    → 0 < nsec
    → nsec < billion
    → IsRounded (nsec * unit) billion q
    → (999999 * unit ≤ q * (1000000 * billion))
      × (q * (1000000 * billion) ≤ (1000000 * billion - 999999) * unit)
quotient_range nsec q h k (e, (low, high), inl error) = (omega arith, omega arith)
quotient_range nsec q h k (e, (low, high), inr error) = (omega arith, omega arith)

sum_range :
    (sec q r : ℕ)
    → sec < 2 ^ 23
    → 999999 * unit ≤ q * (1000000 * billion)
    → q * (1000000 * billion) ≤ (1000000 * billion - 999999) * unit
    → IsRounded (sec * unit + q) 1 r
    → (sec * unit < r) × (r ≤ (sec + 1) * unit)
sum_range sec q r h low_q high_q (e, (low, high), inl error) = (omega arith, omega arith)
sum_range sec q r h low_q high_q (e, (low, high), inr error) = (omega arith, omega arith)

ceiling : (sec r : ℕ) → sec * unit < r → r ≤ (sec + 1) * unit → (r + (unit - 1)) / unit ≡ sec + 1
ceiling sec r h k = omega arith

whole_ceiling : (sec r : ℕ) → r ≡ sec * unit → (r + (unit - 1)) / unit ≡ sec
whole_ceiling sec r h = omega arith

once : (n m : ℕ) → m ≡ n → n + 0 ≡ m * 1
once n m h = omega arith

float_of : ℕ → ℕ → ℕ
unfolding round53
float_of sec nsec = round53 64 (sec * unit + round53 32 (nsec * unit) billion) 1

ceil_of-whole : (sec : ℕ) → sec < 2 ^ 23 → (float_of sec 0 + (unit - 1)) / unit ≡ sec
unfolding float_of doubled
ceil_of-whole sec h =
    let exact : round53 64 (sec * unit + 0) 1 ≡ sec * unit =
      ap (λ n. round53 64 n 1) (once (sec * unit) (doubled 82 sec) (unit-doubled sec))
      ∙ round53-exact 64 sec 82 1 (omega arith) (omega arith)
      ∙ unit-doubled sec in
    let zero_rounds : round53 32 (0 * unit) billion ≡ 0 =
      round53-exact 32 0 0 billion (omega arith) (omega arith) in
    whole_ceiling sec (float_of sec 0) (ap (λ q. round53 64 (sec * unit + q) 1) zero_rounds ∙ exact)

ceil_of-part :
    (sec nsec : ℕ)
    → sec < 2 ^ 23
    → 0 < nsec
    → nsec < billion
    → (float_of sec nsec + (unit - 1)) / unit ≡ sec + 1
unfolding float_of
ceil_of-part sec nsec h k below =
    let q = round53 32 (nsec * unit) billion in
    let (low, high) =
      quotient_range nsec q k below (round53-IsRounded 32 (nsec * unit) billion (omega arith)) in
    let (above, under) =
      sum_range sec q (float_of sec nsec) h low high
        (round53-IsRounded 64 (sec * unit + q) 1 (omega arith)) in
    ceiling sec (float_of sec nsec) above under

-- Below 2 ^ 23 seconds the float64 of a duration has its ceiling.
pub ceil_seconds-exact :
    (d : ℕ) → d < 8388608 * billion → ceil_seconds d ≡ (d + 999999999) / billion
unfolding ceil_seconds float_seconds float_of
ceil_seconds-exact d h = elim (Bool-cases (eqb (d % billion) 0)) [
  | inl whole ↦
      let none_left : d % billion ≡ 0 = ground arith in
      ap (λ n. (float_of (d / billion) n + (unit - 1)) / unit) none_left
      ∙ ceil_of-whole (d / billion) (omega arith)
      ∙ omega arith
  | inr part ↦
      let some_left : 0 < d % billion = ground arith in
      ceil_of-part (d / billion) (d % billion) (omega arith) some_left (omega arith) ∙ omega arith
]
