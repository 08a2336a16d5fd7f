-- ===== src/Prelude/Nested.antt =====
-- Maps of maps, m[c][k], as the stores use them: a read of a missing inner map finds nothing, a write
-- makes the inner map, and a delete leaves a missing one alone.
use mathlib.Core.Path.{◌≡◌}
use mathlib.Core.Bool.{◌&&◌}
use mathlib.Core.Option.{Option, none, some}
use mathlib.Core.List.{[], ◌∷◌}
use native.Mathlib.Omega.{arith}
use superapi.Prelude.Tests.{if◌then◌else◌}
use superapi.Prelude.Text.{Str, ◌==◌, ==_iff}
use superapi.Prelude.Order.{Distinct}
use superapi.Prelude.Maps.{
  Dict, lookup, insert, remove, keys, lookup-insert, lookup-remove, insert-Distinct,
  remove-Distinct,
}

module _ {ℓ} {V : Type ℓ} where
  abbrev pub or_empty : Option (Dict V) → Dict V
  or_empty none = []
  or_empty (some col) = col

  abbrev pub in_column : Str → Option (Dict V) → Option V
  in_column k none = none
  in_column k (some col) = lookup k col

  unfoldable pub nested_get : Str → Str → Dict (Dict V) → Option V
  nested_get c k m = in_column k (lookup c m)

  unfoldable pub nested_put : Str → Str → V → Dict (Dict V) → Dict (Dict V)
  nested_put c k v m = insert c (insert k v (or_empty (lookup c m))) m

  abbrev remove_in : Str → Str → Option (Dict V) → Dict (Dict V) → Dict (Dict V)
  remove_in c k none m = m
  remove_in c k (some col) m = insert c (remove k col) m

  unfoldable pub nested_remove : Str → Str → Dict (Dict V) → Dict (Dict V)
  nested_remove c k m = remove_in c k (lookup c m) m

  pub nested_get-put :
      (c d k j : Str) (v : V) (m : Dict (Dict V))
      → nested_get d j (nested_put c k v m)
        ≡ (if c == d && k == j then some v else nested_get d j m)
  unfolding nested_get nested_put lookup
  nested_get-put c d k j v m = ground (
    arith,
    ==_iff c d,
    lookup-insert c d (insert k v (or_empty (lookup c m))) m,
    lookup-insert k j v (or_empty (lookup c m)),
    lookup-insert k j v (or_empty (lookup d m)),
  )

  pub nested_get-remove :
      (c d k j : Str) (m : Dict (Dict V))
      → nested_get d j (nested_remove c k m) ≡ (if c == d && k == j then none else nested_get d j m)
  unfolding nested_get nested_remove lookup
  nested_get-remove c d k j m = ground (
    arith,
    ==_iff c d,
    lookup-insert c d (remove k (or_empty (lookup c m))) m,
    lookup-remove k j (or_empty (lookup c m)),
    lookup-remove k j (or_empty (lookup d m)),
  )

  -- Every inner map has distinct keys.
  abbrev pub InnerDistinct : Dict (Dict V) → Type 0
  InnerDistinct [] = Unit
  InnerDistinct ((c, col) ∷ m) = Distinct (keys col) × InnerDistinct m

  pub column-Distinct :
      (c : Str) (m : Dict (Dict V)) → InnerDistinct m → Distinct (keys (or_empty (lookup c m)))
  unfolding lookup keys
  column-Distinct c [] h = tt
  column-Distinct c ((d, col) ∷ m) h = ground (arith, column-Distinct c m h.1)

  insert-InnerDistinct :
      (c : Str) (col : Dict V) (m : Dict (Dict V))
      → Distinct (keys col)
      → InnerDistinct m
      → InnerDistinct (insert c col m)
  unfolding insert
  insert-InnerDistinct c col [] h i = (h, tt)
  insert-InnerDistinct c col ((d, old) ∷ m) h i = ground (arith, insert-InnerDistinct c col m h i.1)

  pub nested_put-InnerDistinct :
      (c k : Str) (v : V) (m : Dict (Dict V)) → InnerDistinct m → InnerDistinct (nested_put c k v m)
  unfolding nested_put
  nested_put-InnerDistinct c k v m h =
      insert-InnerDistinct c (insert k v (or_empty (lookup c m))) m
        (insert-Distinct k v (or_empty (lookup c m)) (column-Distinct c m h)) h

  remove_in-InnerDistinct :
      (c k : Str) (o : Option (Dict V)) (m : Dict (Dict V))
      → Distinct (keys (or_empty o))
      → InnerDistinct m
      → InnerDistinct (remove_in c k o m)
  remove_in-InnerDistinct c k none m d h = h
  remove_in-InnerDistinct c k (some col) m d h =
      insert-InnerDistinct c (remove k col) m (remove-Distinct k col d) h

  pub nested_remove-InnerDistinct :
      (c k : Str) (m : Dict (Dict V)) → InnerDistinct m → InnerDistinct (nested_remove c k m)
  unfolding nested_remove
  nested_remove-InnerDistinct c k m h =
      remove_in-InnerDistinct c k (lookup c m) m (column-Distinct c m h) h

  pub nested_put-Distinct :
      (c k : Str) (v : V) (m : Dict (Dict V))
      → Distinct (keys m)
      → Distinct (keys (nested_put c k v m))
  unfolding nested_put
  nested_put-Distinct c k v m h = insert-Distinct c (insert k v (or_empty (lookup c m))) m h
