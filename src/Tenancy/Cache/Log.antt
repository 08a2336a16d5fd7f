-- ===== src/Tenancy/Cache/Log.antt =====
-- Every entry of a segment was put, by a log of the puts.
use superapi.Prelude.{
  ℕ, zero, suc, ◌+◌, ◌≤◌, Str, ◌≡◌, refl, Bool, true, false, some, List, [], ◌∷◌, ◌==◌, ==-eq,
  subst, length, ltb, arith, Option-cases, Bool-cases, inl, inr, ◌⊎◌,
}
use superapi.Tenancy.Cache.{
  LruEntry, TtlLru, element, remove_element, get, evict, remove_back, put, negative_ttl,
  ValidationCache, new_validation_cache,
}
use superapi.Tenancy.Cache.History.{Put}

-- The log has a put of the entry's key and value, of that state, whose deadline is the entry's.
pub record PutAs (ttl : ℕ) (active : Bool) (e : LruEntry) (p : Put) : Type 0 where
  pub key : p.key ≡ e.key
  pub value : p.tenant.id ≡ e.value
  pub state : p.tenant.active ≡ active
  pub deadline : e.expires ≡ p.at + ttl

abbrev pub Logged : (Put → Type 0) → List Put → Type 0
Logged P [] = ⊥
Logged P (p ∷ ps) = P p ⊎ Logged P ps

-- Every entry of the segment is in the log.
abbrev pub FromLog : ℕ → Bool → List Put → List LruEntry → Type 0
FromLog ttl active log [] = Unit
FromLog ttl active log (e ∷ es) = Logged (PutAs ttl active e) log × FromLog ttl active log es

module _ (ttl : ℕ) (active : Bool) where
  -- The log grows.
  pub FromLog-weaken :
      (p : Put) (log : List Put) (es : List LruEntry)
      → FromLog ttl active log es
      → FromLog ttl active (p ∷ log) es
  FromLog-weaken p log [] h = tt
  FromLog-weaken p log (e ∷ es) h = (inr h.0, FromLog-weaken p log es h.1)

  pub FromLog-remove_element :
      (k : Str) (log : List Put) (es : List LruEntry)
      → FromLog ttl active log es
      → FromLog ttl active log (remove_element k es)
  unfolding remove_element
  FromLog-remove_element k log [] h = tt
  FromLog-remove_element k log (e ∷ es) h = elim (Bool-cases (e.key == k)) [
    | inl same ↦ rw same h.1
    | inr other ↦ rw other (h.0, FromLog-remove_element k log es h.1)
  ]

  pub FromLog-remove_back :
      (log : List Put) (es : List LruEntry)
      → FromLog ttl active log es
      → FromLog ttl active log (remove_back es)
  unfolding remove_back
  FromLog-remove_back log [] h = tt
  FromLog-remove_back log (e ∷ []) h = tt
  FromLog-remove_back log (e ∷ f ∷ es) h = (h.0, FromLog-remove_back log (f ∷ es) h.1)

  pub FromLog-evict :
      (fuel max : ℕ) (log : List Put) (es : List LruEntry)
      → FromLog ttl active log es
      → FromLog ttl active log (evict fuel max es)
  unfolding evict
  FromLog-evict zero max log es h = h
  FromLog-evict (suc fuel) max log es h = elim (Bool-cases (ltb max (length es))) [
    | inl over ↦
        rw over (FromLog-evict fuel max log (remove_back es) (FromLog-remove_back log es h))
    | inr fits ↦ rw fits h
  ]

  pub FromLog-element :
      (k : Str) (log : List Put) (es : List LruEntry) (e : LruEntry)
      → FromLog ttl active log es
      → element k es ≡ some e
      → Logged (PutAs ttl active e) log × (e.key ≡ k)
  unfolding element
  FromLog-element k log [] e h found = cc
  FromLog-element k log (f ∷ es) e h found = elim (Bool-cases (f.key == k)) [
    | inl same ↦
        let is_e : f ≡ e = ground arith in
        subst (λ x. Logged (PutAs ttl active x) log × (x.key ≡ k)) is_e (h.0, ==-eq f.key k same)
    | inr other ↦ FromLog-element k log es e h.1 (ground arith)
  ]

  pub get-FromLog :
      (now : ℕ) (k : Str) (log : List Put) (l : TtlLru)
      → FromLog ttl active log l.order
      → FromLog ttl active log (get now k l).0.order
  unfolding get
  get-FromLog now k log l h = elim (Option-cases (element k l.order)) [
    | inl missing ↦ rw missing h
    | inr (e, found) ↦ rw found (
        let rest = FromLog-remove_element k log l.order h in
        elim (Bool-cases (ltb e.expires now)) [
          | inl late ↦ rw late rest
          | inr live ↦ rw live ((FromLog-element k log l.order e h found).0, rest)
        ])
  ]

  -- A value that is told comes from a live entry.
  pub get-live :
      (now : ℕ) (k v : Str) (l : TtlLru)
      → (get now k l).1 ≡ some v
      → (e : LruEntry) × (element k l.order ≡ some e) × (e.value ≡ v) × (now ≤ e.expires)
  unfolding get
  get-live now k v l h = elim (Option-cases (element k l.order)) [
    | inl missing ↦ cc (rw missing at h)
    | inr (e, found) ↦ (e, found, ground arith, ground arith)
  ]

  pub put-FromLog :
      (now : ℕ) (k id : Str) (log : List Put) (l : TtlLru)
      → l.ttl ≡ ttl
      → FromLog ttl active log l.order
      → (p : Put) → p.key ≡ k
      → p.tenant.id ≡ id
      → p.tenant.active ≡ active
      → p.at ≡ now
      → FromLog ttl active (p ∷ log) (put now k id l).order
  unfolding put
  put-FromLog now k id log l same h p key value state time =
      let new : LruEntry = record { key = k; value = id; expires = now + l.ttl } in
      let logged : PutAs ttl active new p = record {
        key = key;
        value = value;
        state = state;
        deadline = omega arith;
      } in
      elim (Option-cases (element k l.order)) [
        | inl missing ↦ rw missing (
            FromLog-evict (suc (length l.order)) l.max (p ∷ log) (new ∷ l.order)
              (inl logged, FromLog-weaken p log l.order h))
        | inr (e, found) ↦ rw found (
          inl logged,
          FromLog-weaken p log (remove_element k l.order) (FromLog-remove_element k log l.order h),
        )
      ]

pub Logged-map :
    (P Q : Put → Type 0) (f : (p : Put) → P p → Q p) (log : List Put) → Logged P log → Logged Q log
Logged-map P Q f [] h = absurd h
Logged-map P Q f (p ∷ ps) (inl h) = inl (f p h)
Logged-map P Q f (p ∷ ps) (inr h) = inr (Logged-map P Q f ps h)

-- Both segments hold what the log says, under their own lifetimes.
pub record IsRecorded (ttl : ℕ) (log : List Put) (c : ValidationCache) : Type 0 where
  pub active_log : FromLog ttl true log c.active.order
  pub inactive_log : FromLog (negative_ttl ttl) false log c.inactive.order
  pub active_ttl : c.active.ttl ≡ ttl
  pub inactive_ttl : c.inactive.ttl ≡ negative_ttl ttl

pub new_validation_cache-IsRecorded : (ttl : ℕ) → IsRecorded ttl [] (new_validation_cache ttl)
unfolding new_validation_cache
new_validation_cache-IsRecorded ttl = record {
  active_log = tt;
  inactive_log = tt;
  active_ttl = refl;
  inactive_ttl = refl;
}

pub ttl-get : (now : ℕ) (k : Str) (l : TtlLru) → (get now k l).0.ttl ≡ l.ttl
unfolding get
ttl-get now k l = ground arith

pub ttl-put : (now : ℕ) (k id : Str) (l : TtlLru) → (put now k id l).ttl ≡ l.ttl
unfolding put
ttl-put now k id l = ground arith
