-- ===== src/Tenancy/Cache/Segment.antt =====
-- What each operation keeps true of one segment of the cache.
use superapi.Prelude.{
  ℕ, suc, ◌+◌, ◌≤◌, Str, ◌≡◌, refl, false, some, List, [], ◌∷◌, ◌==◌, ==_iff, length, ltb, arith,
  mem, Distinct, Option-cases, Bool-cases, inl, inr,
}
use superapi.Tenancy.Cache.{
  LruEntry, TtlLru, new_ttl_lru, element, remove_element, get, evict, put, remove,
}
use superapi.Tenancy.Cache.Lru.{
  keys_of, length-evict, evict-Distinct, mem-remove_element, mem-remove_element_self,
  remove_element-Distinct, length-remove_element, length-remove_element_found, mem-element,
  mem-evict, mem-found,
}

pub record IsValid (l : TtlLru) : Type 0 where
  pub room : 1 ≤ l.max
  pub fits : length l.order ≤ l.max
  pub distinct : Distinct (keys_of l.order)

pub new_ttl_lru-IsValid : (max ttl : ℕ) → IsValid (new_ttl_lru max ttl)
unfolding new_ttl_lru
new_ttl_lru-IsValid max ttl = ground arith

pub remove-IsValid : (k : Str) (l : TtlLru) → IsValid l → IsValid (remove k l)
unfolding remove
remove-IsValid k l v = record {
  room = v.room;
  fits = omega (arith, length-remove_element k l.order);
  distinct = remove_element-Distinct k l.order v.distinct;
}

-- The element moves to the front, or is replaced there.
pub front-IsValid :
    (k : Str) (l : TtlLru) (e new : LruEntry)
    → IsValid l
    → element k l.order ≡ some e
    → new.key ≡ k
    → IsValid (record l { order = new ∷ remove_element k l.order })
front-IsValid k l e new v found same = record {
  room = v.room;
  fits = omega (arith, length-remove_element_found k l.order e found);
  distinct = (
    rw same (mem-remove_element_self k l.order v.distinct),
    remove_element-Distinct k l.order v.distinct,
  );
}

pub element-key : (k : Str) (es : List LruEntry) (e : LruEntry) → element k es ≡ some e → e.key ≡ k
unfolding element
element-key k [] e h = cc
element-key k (f ∷ es) e h = ground (arith, element-key k es e, ==_iff f.key k)

pub get-IsValid : (now : ℕ) (k : Str) (l : TtlLru) → IsValid l → IsValid (get now k l).0
unfolding get
get-IsValid now k l v = elim (Option-cases (element k l.order)) [
  | inl missing ↦ rw missing v
  | inr (e, found) ↦ rw found (elim (Bool-cases (ltb e.expires now)) [
    | inl late ↦ rw late (unfold remove in remove-IsValid k l v)
    | inr live ↦ rw live (front-IsValid k l e e v found (element-key k l.order e found))
  ])
]

pub push-IsValid :
    (l : TtlLru) (new : LruEntry)
    → IsValid l
    → mem new.key (keys_of l.order) ≡ false
    → IsValid (record l { order = evict (length (new ∷ l.order)) l.max (new ∷ l.order) })
push-IsValid l new v fresh = record {
  room = v.room;
  fits = length-evict (length (new ∷ l.order)) l.max (new ∷ l.order) (omega arith);
  distinct = evict-Distinct (length (new ∷ l.order)) l.max (new ∷ l.order) (fresh, v.distinct);
}

pub put-IsValid : (now : ℕ) (k id : Str) (l : TtlLru) → IsValid l → IsValid (put now k id l)
unfolding put
put-IsValid now k id l v = elim (Option-cases (element k l.order)) [
  | inl missing ↦ rw missing (push-IsValid l _ v (mem-element k l.order missing))
  | inr (e, found) ↦ rw found (front-IsValid k l e _ v found refl)
]

-- No key appears in a segment but the one that is put, and a removed key is gone.
pub front-keys :
    (k j : Str) (l : TtlLru) (e new : LruEntry)
    → element k l.order ≡ some e
    → new.key ≡ k
    → mem j (keys_of l.order) ≡ false
    → mem j (keys_of (new ∷ remove_element k l.order)) ≡ false
unfolding mem
front-keys k j l e new found same h =
    ground (arith, mem-remove_element k j l.order h, mem-found k l.order e found, ==_iff new.key j)

pub keys-get :
    (now : ℕ) (k j : Str) (l : TtlLru)
    → mem j (keys_of l.order) ≡ false
    → mem j (keys_of (get now k l).0.order) ≡ false
unfolding get
keys-get now k j l h = elim (Option-cases (element k l.order)) [
  | inl missing ↦ rw missing h
  | inr (e, found) ↦ rw found (elim (Bool-cases (ltb e.expires now)) [
    | inl late ↦ rw late (mem-remove_element k j l.order h)
    | inr live ↦ rw live (front-keys k j l e e found (element-key k l.order e found) h)
  ])
]

pub push-keys :
    (j : Str) (fuel max : ℕ) (new : LruEntry) (es : List LruEntry)
    → (new.key == j) ≡ false
    → mem j (keys_of es) ≡ false
    → mem j (keys_of (evict fuel max (new ∷ es))) ≡ false
push-keys j fuel max new es ne h = mem-evict j fuel max (new ∷ es) (unfold mem in ground arith)

pub keys-put :
    (now : ℕ) (k j id : Str) (l : TtlLru)
    → (k == j) ≡ false
    → mem j (keys_of l.order) ≡ false
    → mem j (keys_of (put now k id l).order) ≡ false
unfolding put
keys-put now k j id l ne h =
    let new : LruEntry = record { key = k; value = id; expires = now + l.ttl } in
    elim (Option-cases (element k l.order)) [
      | inl missing ↦ rw missing (push-keys j (suc (length l.order)) l.max new l.order ne h)
      | inr (e, found) ↦ rw found (front-keys k j l e new found refl h)
    ]
