-- ===== src/Prelude/Maps.antt =====
-- Go maps with string keys, as association lists. Every key stands once in a map that the functions
-- here have built; the program never depends on the order in which a map is ranged over.
use mathlib.Core.Path.{◌≡◌, refl, ◌∙◌}
use mathlib.Core.Bool.{Bool, true, false, ◌||◌}
use mathlib.Core.Option.{Option, none, some}
use mathlib.Core.List.{List, [], ◌∷◌}
use native.Mathlib.Omega.{arith}
use superapi.Prelude.Tests.{if◌then◌else◌}
use superapi.Prelude.Text.{Str, ◌==◌, ==_iff}
use superapi.Prelude.Order.{mem, Distinct}

abbrev pub Dict {ℓ} : Type ℓ → Type ℓ
Dict V = List (Str × V)

module _ {ℓ} {V : Type ℓ} where
  -- The value of a key, and whether it is there.
  unfoldable pub lookup : Str → Dict V → Option V
  lookup name [] = none
  lookup name (entry ∷ rest) =
      let later = lookup name rest in if entry.0 == name then some entry.1 else later

  -- An assignment: in place where the key is there, and else at the end.
  unfoldable pub insert : Str → V → Dict V → Dict V
  insert name value [] = (name, value) ∷ []
  insert name value (entry ∷ rest) =
      let later = insert name value rest in
      if entry.0 == name then (name, value) ∷ rest else entry ∷ later

  -- delete(m, k)
  unfoldable pub remove : Str → Dict V → Dict V
  remove k [] = []
  remove k ((j, w) ∷ m) = let rest = remove k m in if j == k then rest else (j, w) ∷ rest

  unfoldable pub keys : Dict V → List Str
  keys [] = []
  keys ((k, v) ∷ m) = k ∷ keys m

  pub lookup-insert :
      (set asked : Str) (value : V) (entries : Dict V)
      → lookup asked (insert set value entries)
        ≡ (if set == asked then some value else lookup asked entries)
  unfolding lookup insert
  lookup-insert set asked value [] = refl
  lookup-insert set asked value ((name, old) ∷ rest) =
      let ih = lookup-insert set asked value rest in
      ground (arith, ==_iff set asked, ==_iff name set, ==_iff name asked, ih)

  pub lookup-remove :
      (k j : Str) (m : Dict V) → lookup j (remove k m) ≡ (if k == j then none else lookup j m)
  unfolding lookup remove
  lookup-remove k j [] = ground arith
  lookup-remove k j ((i, w) ∷ m) =
      ground (arith, ==_iff k j, ==_iff i k, ==_iff i j, lookup-remove k j m)

  abbrev pub is_some : Option V → Bool
  is_some none = false
  is_some (some v) = true

  pub mem-keys : (k : Str) (m : Dict V) → mem k (keys m) ≡ is_some (lookup k m)
  unfolding mem keys lookup
  mem-keys k [] = refl
  mem-keys k ((j, v) ∷ m) = ground (arith, mem-keys k m)

  mem-keys-insert :
      (k j : Str) (v : V) (m : Dict V) → mem j (keys (insert k v m)) ≡ (k == j || mem j (keys m))
  mem-keys-insert k j v m =
      mem-keys j (insert k v m) ∙ ground (arith, lookup-insert k j v m, mem-keys j m)

  mem-keys-remove :
      (k j : Str) (m : Dict V)
      → mem j (keys (remove k m)) ≡ (if k == j then false else mem j (keys m))
  mem-keys-remove k j m =
      mem-keys j (remove k m) ∙ ground (arith, lookup-remove k j m, mem-keys j m)

  pub insert-Distinct :
      (k : Str) (v : V) (m : Dict V) → Distinct (keys m) → Distinct (keys (insert k v m))
  unfolding insert keys mem
  insert-Distinct k v [] d = (refl, tt)
  insert-Distinct k v ((j, w) ∷ m) d =
      ground (arith, ==_iff j k, ==_iff k j, mem-keys-insert k j v m, insert-Distinct k v m d.1)

  pub remove-Distinct : (k : Str) (m : Dict V) → Distinct (keys m) → Distinct (keys (remove k m))
  unfolding remove keys
  remove-Distinct k [] d = tt
  remove-Distinct k ((j, w) ∷ m) d = ground (arith, mem-keys-remove k j m, remove-Distinct k m d.1)

pub ruleset dict_laws = (lookup-insert, lookup-remove)
