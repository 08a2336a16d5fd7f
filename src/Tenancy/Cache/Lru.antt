-- ===== src/Tenancy/Cache/Lru.antt =====
-- One segment of the cache: what its operations do to an entry, seen through `element`.
use superapi.Prelude.{
  ℕ, zero, suc, ◌+◌, ◌-◌, ◌≤◌, Str, ◌≡◌, refl, true, false, none, some, List, [], ◌∷◌, ◌==◌, ==_iff,
  length, if◌then◌else◌, arith, mem, Distinct,
}
use superapi.Tenancy.Cache.{LruEntry, element, remove_element, remove_back, evict}

abbrev pub keys_of : List LruEntry → List Str
keys_of [] = []
keys_of (e ∷ es) = e.key ∷ keys_of es

pub element-mem : (k : Str) (es : List LruEntry) → mem k (keys_of es) ≡ false → element k es ≡ none
unfolding element mem
element-mem k [] h = refl
element-mem k (e ∷ es) h = ground (arith, element-mem k es)

pub mem-element : (k : Str) (es : List LruEntry) → element k es ≡ none → mem k (keys_of es) ≡ false
unfolding element mem
mem-element k [] h = refl
mem-element k (e ∷ es) h = ground (arith, mem-element k es)

pub element-remove_element :
    (k j : Str) (es : List LruEntry)
    → Distinct (keys_of es)
    → element j (remove_element k es) ≡ (if k == j then none else element j es)
unfolding element remove_element mem
element-remove_element k j [] d = ground arith
element-remove_element k j (e ∷ es) d = ground (
  arith,
  ==_iff e.key k,
  ==_iff e.key j,
  ==_iff k j,
  element-remove_element k j es d.1,
  element-mem e.key es d.0,
)

-- The loop of `put` leaves what fits, from the front.
length-remove_back : (es : List LruEntry) → length (remove_back es) ≡ length es - 1
unfolding remove_back
length-remove_back [] = omega arith
length-remove_back (e ∷ []) = omega arith
length-remove_back (e ∷ f ∷ es) = omega (arith, length-remove_back (f ∷ es))

pub length-evict :
    (fuel max : ℕ) (es : List LruEntry) → length es ≤ fuel + max → length (evict fuel max es) ≤ max
unfolding evict
length-evict zero max es h = omega arith
length-evict (suc fuel) max es h =
    ground (arith, length-evict fuel max (remove_back es), length-remove_back es)

mem-remove_back :
    (k : Str) (es : List LruEntry)
    → mem k (keys_of es) ≡ false
    → mem k (keys_of (remove_back es)) ≡ false
unfolding remove_back mem
mem-remove_back k [] h = refl
mem-remove_back k (e ∷ []) h = refl
mem-remove_back k (e ∷ f ∷ es) h = ground (arith, mem-remove_back k (f ∷ es))

remove_back-Distinct :
    (es : List LruEntry) → Distinct (keys_of es) → Distinct (keys_of (remove_back es))
unfolding remove_back mem
remove_back-Distinct [] d = d
remove_back-Distinct (e ∷ []) d = tt
remove_back-Distinct (e ∷ f ∷ es) d =
    (mem-remove_back e.key (f ∷ es) d.0, remove_back-Distinct (f ∷ es) d.1)

pub mem-evict :
    (k : Str) (fuel max : ℕ) (es : List LruEntry)
    → mem k (keys_of es) ≡ false
    → mem k (keys_of (evict fuel max es)) ≡ false
unfolding evict
mem-evict k zero max es h = h
mem-evict k (suc fuel) max es h =
    ground (arith, mem-evict k fuel max (remove_back es), mem-remove_back k es h)

pub evict-Distinct :
    (fuel max : ℕ) (es : List LruEntry)
    → Distinct (keys_of es)
    → Distinct (keys_of (evict fuel max es))
unfolding evict
evict-Distinct zero max es d = d
evict-Distinct (suc fuel) max es d =
    ground (arith, evict-Distinct fuel max (remove_back es), remove_back-Distinct es d)

pub mem-remove_element :
    (k j : Str) (es : List LruEntry)
    → mem j (keys_of es) ≡ false
    → mem j (keys_of (remove_element k es)) ≡ false
unfolding remove_element mem
mem-remove_element k j [] h = refl
mem-remove_element k j (e ∷ es) h = ground (arith, mem-remove_element k j es)

pub mem-remove_element_self :
    (k : Str) (es : List LruEntry)
    → Distinct (keys_of es)
    → mem k (keys_of (remove_element k es)) ≡ false
unfolding remove_element mem
mem-remove_element_self k [] d = refl
mem-remove_element_self k (e ∷ es) d =
    ground (arith, mem-remove_element_self k es d.1, ==_iff e.key k)

pub remove_element-Distinct :
    (k : Str) (es : List LruEntry)
    → Distinct (keys_of es)
    → Distinct (keys_of (remove_element k es))
unfolding remove_element mem
remove_element-Distinct k [] d = d
remove_element-Distinct k (e ∷ es) d =
    ground (arith, mem-remove_element k e.key es d.0, remove_element-Distinct k es d.1)

pub length-remove_element :
    (k : Str) (es : List LruEntry) → length (remove_element k es) ≤ length es
unfolding remove_element
length-remove_element k [] = omega arith
length-remove_element k (e ∷ es) = ground (arith, length-remove_element k es)

pub length-remove_element_found :
    (k : Str) (es : List LruEntry) (e : LruEntry)
    → element k es ≡ some e
    → suc (length (remove_element k es)) ≡ length es
unfolding remove_element element
length-remove_element_found k [] e h = cc
length-remove_element_found k (f ∷ es) e h = ground (arith, length-remove_element_found k es e)

pub mem-found :
    (k : Str) (es : List LruEntry) (e : LruEntry)
    → element k es ≡ some e
    → mem k (keys_of es) ≡ true
unfolding element mem
mem-found k [] e h = cc
mem-found k (f ∷ es) e h = ground (arith, mem-found k es e)
