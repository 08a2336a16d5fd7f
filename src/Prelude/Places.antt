-- ===== src/Prelude/Places.antt =====
-- Places of a list: the element at a place, its replacement and its removal, and sums of weights.
use Prim.Native.Nat.{ℕ, zero, suc, ◌+◌, ◌≤◌}
use mathlib.Core.Path.{◌≡◌, ap, subst}
use mathlib.Core.Option.{Option, none, some}
use mathlib.Core.List.{List, [], ◌∷◌, ◌++◌}
use native.Mathlib.Omega.{arith}
use superapi.Prelude.Lists.{All}

module _ {ℓ} {A : Type ℓ} where
  abbrev or_else : A → Option A → A
  or_else y none = y
  or_else y (some x) = x

  abbrev pub get_elem? : ℕ → List A → Option A
  get_elem? i [] = none
  get_elem? zero (x ∷ xs) = some x
  get_elem? (suc i) (x ∷ xs) = get_elem? i xs

  abbrev pub replace_at : ℕ → A → List A → List A
  replace_at i y [] = []
  replace_at zero y (x ∷ xs) = y ∷ xs
  replace_at (suc i) y (x ∷ xs) = x ∷ replace_at i y xs

  abbrev pub remove_at : ℕ → List A → List A
  remove_at i [] = []
  remove_at zero (x ∷ xs) = xs
  remove_at (suc i) (x ∷ xs) = x ∷ remove_at i xs

  unfoldable pub total : (A → ℕ) → List A → ℕ
  total f [] = 0
  total f (x ∷ xs) = f x + total f xs

  pub total-replace_at :
      (f : A → ℕ) (i : ℕ) (x y : A) (xs : List A)
      → get_elem? i xs ≡ some x
      → total f (replace_at i y xs) + f x ≡ total f xs + f y
  unfolding total
  total-replace_at f i x y [] h = ground arith
  total-replace_at f zero x y (z ∷ xs) h = ground arith
  total-replace_at f (suc i) x y (z ∷ xs) h = omega (arith, total-replace_at f i x y xs h)

  pub total-remove_at :
      (f : A → ℕ) (i : ℕ) (x : A) (xs : List A)
      → get_elem? i xs ≡ some x
      → total f (remove_at i xs) + f x ≡ total f xs
  unfolding total
  total-remove_at f i x [] h = ground arith
  total-remove_at f zero x (z ∷ xs) h = ground arith
  total-remove_at f (suc i) x (z ∷ xs) h = omega (arith, total-remove_at f i x xs h)

  pub total-append : (f : A → ℕ) (xs ys : List A) → total f (xs ++ ys) ≡ total f xs + total f ys
  unfolding total
  total-append f [] ys = omega arith
  total-append f (x ∷ xs) ys = omega (arith, total-append f xs ys)

  pub le-total :
      (f : A → ℕ) (i : ℕ) (x : A) (xs : List A) → get_elem? i xs ≡ some x → f x ≤ total f xs
  le-total f i x xs h = omega (arith, total-remove_at f i x xs h)

module _ {ℓ κ} {A : Type ℓ} (P : A → Type κ) where
  -- What holds of all elements holds of the one at a place.
  pub All-at : (n : ℕ) (xs : List A) (x : A) → All P xs → get_elem? n xs ≡ some x → P x
  All-at n [] x h at = ground arith
  All-at zero (y ∷ xs) x h at = subst P (ap (or_else y) at) h.0
  All-at (suc n) (y ∷ xs) x h at = All-at n xs x h.1 at
