-- ===== src/Prelude/Order.antt =====
-- The order of sort.Strings is a strict total order, and sorted lists of distinct strings are
-- determined by their elements.
use mathlib.Core.Path.{◌≡◌, refl, sym, ap, ap₂, ◌∙◌}
use mathlib.Core.Logic.{inl, inr}
use mathlib.Core.Bool.{Bool, true, false, ◌||◌}
use mathlib.Core.List.{List, [], ◌∷◌}
use native.Mathlib.Omega.{arith}
use superapi.Prelude.Tests.{Bool-cases, if◌then◌else◌}
use superapi.Prelude.Lists.{All}
use superapi.Prelude.Text.{Str, ◌==◌, ==-refl, ==-eq, str_lt}

pub str_lt_irrefl : (s : Str) → str_lt s s ≡ false
unfolding str_lt
str_lt_irrefl [] = refl
str_lt_irrefl (x ∷ xs) = ground (arith, str_lt_irrefl xs)

pub str_lt_trans : (s t u : Str) → str_lt s t ≡ true → str_lt t u ≡ true → str_lt s u ≡ true
unfolding str_lt
str_lt_trans s [] u h k = cc
str_lt_trans s (y ∷ t) [] h k = cc
str_lt_trans [] (y ∷ t) (z ∷ u) h k = refl
str_lt_trans (x ∷ s) (y ∷ t) (z ∷ u) h k = ground (arith, str_lt_trans s t u)

pub str_lt_asymm : (s t : Str) → str_lt s t ≡ true → str_lt t s ≡ false
str_lt_asymm s t h = elim (Bool-cases (str_lt t s)) [
  | inl k ↦ cc (str_lt_trans s t s h k, str_lt_irrefl s)
  | inr k ↦ k
]

pub str_lt_total : (s t : Str) → str_lt s t ≡ false → str_lt t s ≡ false → s ≡ t
unfolding str_lt
str_lt_total [] [] h k = refl
str_lt_total [] (y ∷ t) h k = cc
str_lt_total (x ∷ s) [] h k = cc
str_lt_total (x ∷ s) (y ∷ t) h k = ground (arith, str_lt_total s t)

-- The string occurs in the list.
unfoldable pub mem : Str → List Str → Bool
mem k [] = false
mem k (x ∷ xs) = x == k || mem k xs

abbrev pub Distinct : List Str → Type 0
Distinct [] = Unit
Distinct (x ∷ xs) = (mem x xs ≡ false) × Distinct xs

-- Every string of the list stands above `s`.
abbrev pub Above : Str → List Str → Type 0
Above s = All (λ t. str_lt s t ≡ true)

abbrev pub IsStrict : List Str → Type 0
IsStrict [] = Unit
IsStrict (x ∷ xs) = Above x xs × IsStrict xs

-- sort.Strings
unfoldable pub insert_sorted : Str → List Str → List Str
insert_sorted s [] = s ∷ []
insert_sorted s (x ∷ xs) =
    let later = insert_sorted s xs in if str_lt x s then x ∷ later else s ∷ x ∷ xs

unfoldable pub sort_strings : List Str → List Str
unfolding insert_sorted str_lt
sort_strings [] = []
sort_strings (x ∷ xs) = insert_sorted x (sort_strings xs)

mem-insert_sorted : (k s : Str) (xs : List Str) → mem k (insert_sorted s xs) ≡ (s == k || mem k xs)
unfolding mem insert_sorted
mem-insert_sorted k s [] = refl
mem-insert_sorted k s (x ∷ xs) = ground (arith, mem-insert_sorted k s xs)

pub mem-sort_strings : (k : Str) (xs : List Str) → mem k (sort_strings xs) ≡ mem k xs
unfolding mem sort_strings
mem-sort_strings k [] = refl
mem-sort_strings k (x ∷ xs) =
    ground (arith, mem-insert_sorted k x (sort_strings xs), mem-sort_strings k xs)

Above-insert_sorted :
    (y s : Str) (xs : List Str) → str_lt y s ≡ true → Above y xs → Above y (insert_sorted s xs)
unfolding insert_sorted
Above-insert_sorted y s [] h a = (h, tt)
Above-insert_sorted y s (x ∷ xs) h a = elim (Bool-cases (str_lt x s)) [
  | inl e ↦ rw e (a.0, Above-insert_sorted y s xs h a.1)
  | inr e ↦ rw e (h, a)
]

Above-trans : (s t : Str) (xs : List Str) → str_lt s t ≡ true → Above t xs → Above s xs
Above-trans s t [] h a = tt
Above-trans s t (x ∷ xs) h a = (str_lt_trans s t x h a.0, Above-trans s t xs h a.1)

insert_sorted-IsStrict :
    (s : Str) (xs : List Str) → mem s xs ≡ false → IsStrict xs → IsStrict (insert_sorted s xs)
unfolding insert_sorted mem
insert_sorted-IsStrict s [] h i = (tt, tt)
insert_sorted-IsStrict s (x ∷ xs) h i = elim (Bool-cases (str_lt x s)) [
  | inl e ↦ rw e (Above-insert_sorted x s xs e i.0, insert_sorted-IsStrict s xs (ground arith) i.1)
  | inr e ↦
      let below : str_lt s x ≡ true = elim (Bool-cases (str_lt s x)) [
        | inl k ↦ k
        | inr k ↦
            cc (
              h,
              ap (λ b. b || mem s xs) (ap (λ t. t == s) (sym (str_lt_total s x k e)) ∙ ==-refl s),
            )
      ] in
      rw e ((below, Above-trans s x xs below i.0), i)
]

pub sort_strings-IsStrict : (xs : List Str) → Distinct xs → IsStrict (sort_strings xs)
unfolding sort_strings
sort_strings-IsStrict [] d = tt
sort_strings-IsStrict (x ∷ xs) d =
    insert_sorted-IsStrict x (sort_strings xs) (mem-sort_strings x xs ∙ d.0)
      (sort_strings-IsStrict xs d.1)

not-mem-Above : (s : Str) (xs : List Str) → Above s xs → mem s xs ≡ false
unfolding mem
not-mem-Above s [] a = refl
not-mem-Above s (x ∷ xs) a = elim (Bool-cases (x == s)) [
  | inl e ↦ cc (a.0, str_lt_irrefl s, ap (λ t. str_lt s t) (==-eq x s e))
  | inr e ↦ rw e (not-mem-Above s xs a.1)
]

-- What occurs in a list above `s` stands above `s`.
Above-mem : (s k : Str) (xs : List Str) → Above s xs → mem k xs ≡ true → str_lt s k ≡ true
unfolding mem
Above-mem s k [] a h = cc
Above-mem s k (x ∷ xs) a h = elim (Bool-cases (x == k)) [
  | inl e ↦ ap (λ t. str_lt s t) (sym (==-eq x k e)) ∙ a.0
  | inr e ↦ Above-mem s k xs a.1 (ground arith)
]

heads_eq :
    (x y : Str) (xs ys : List Str)
    → Above x xs
    → Above y ys
    → mem x (y ∷ ys) ≡ true
    → mem y (x ∷ xs) ≡ true
    → x ≡ y
unfolding mem
heads_eq x y xs ys a b h k = elim (Bool-cases (y == x)) [
  | inl e ↦ sym (==-eq y x e)
  | inr e ↦ elim (Bool-cases (x == y)) [
    | inl f ↦ ==-eq x y f
    | inr f ↦
        cc (str_lt_asymm x y (Above-mem x y xs a (ground arith)), Above-mem y x ys b (ground arith))
  ]
]

-- Lists above their equal heads have the same elements if the whole lists do.
mem-tails :
    (k x : Str) (xs ys : List Str)
    → Above x xs
    → Above x ys
    → mem k (x ∷ xs) ≡ mem k (x ∷ ys)
    → mem k xs ≡ mem k ys
unfolding mem
mem-tails k x xs ys a b h = elim (Bool-cases (x == k)) [
  | inl e ↦
      let same = ==-eq x k e in
      not-mem-Above k xs (rw same at a) ∙ sym (not-mem-Above k ys (rw same at b))
  | inr e ↦ ground arith
]

pub IsStrict-ext :
    (xs ys : List Str) → IsStrict xs → IsStrict ys → ((k : Str) → mem k xs ≡ mem k ys) → xs ≡ ys
unfolding mem
IsStrict-ext [] [] i j h = refl
IsStrict-ext [] (y ∷ ys) i j h = cc (h y, ap (λ b. b || mem y ys) (==-refl y))
IsStrict-ext (x ∷ xs) [] i j h = cc (h x, ap (λ b. b || mem x xs) (==-refl x))
IsStrict-ext (x ∷ xs) (y ∷ ys) i j h =
    let same : x ≡ y =
      heads_eq x y xs ys i.0 j.0 (sym (h x) ∙ ap (λ b. b || mem x xs) (==-refl x))
        (h y ∙ ap (λ b. b || mem y ys) (==-refl y)) in
    let above : Above x ys = rw same j.0 in
    let agree : (k : Str) → mem k (x ∷ xs) ≡ mem k (x ∷ ys) = λ k. h k ∙ rw same refl in
    ap₂ (λ a b. a ∷ b) same
      (IsStrict-ext xs ys i.1 j.1 (λ k. mem-tails k x xs ys i.0 above (agree k)))
