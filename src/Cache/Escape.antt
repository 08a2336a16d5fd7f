-- ===== src/Cache/Escape.antt =====
-- internal/core/cache/manager.go, escapeTagValue, with net/url's QueryEscape: a byte that is not
-- unreserved becomes a plus sign or three bytes.
use superapi.Prelude.{
  ℕ, ◌+◌, ◌/◌, ◌%◌, Str, ◌≡◌, refl, ap, ap₂, sym, ◌∙◌, Bool, true, not, ◌&&◌, ◌||◌, [], ◌∷◌, ◌++◌,
  leb, eqb, ltb, all, trim_space, if◌then◌else◌, arith, inl, inr, Bool-cases, drop, ◌<◌, ◌≢◌,
  and_split,
}

abbrev pub is_unreserved : ℕ → Bool
is_unreserved c =
    leb b'a' c && leb c b'z'
    || leb b'A' c && leb c b'Z'
    || leb b'0' c && leb c b'9'
    || eqb c b'-'
    || eqb c b'_'
    || eqb c b'.'
    || eqb c b'~'

abbrev pub upper_hex : ℕ → ℕ
upper_hex n = if ltb n 10 then 48 + n else 55 + n

unfoldable pub escape_byte : ℕ → Str
escape_byte c =
    if is_unreserved c
    then c ∷ []
    else if eqb c b' '
    then b'+' ∷ []
    else b'%' ∷ upper_hex (c / 16) ∷ upper_hex (c % 16) ∷ []

unfoldable pub query_escape : Str → Str
unfolding escape_byte
query_escape [] = []
query_escape (c ∷ s) = escape_byte c ++ query_escape s

unfoldable pub escape_tag_value : Str → Str
unfolding query_escape trim_space
escape_tag_value value = query_escape (trim_space value)

abbrev pub is_not_bar : ℕ → Bool
is_not_bar c = not (eqb c b'|')

upper_hex-injective : (m n : ℕ) → upper_hex m ≡ upper_hex n → m ≡ n
upper_hex-injective m n h = ground arith

hex_pair : (c d : ℕ) → c / 16 ≡ d / 16 → c % 16 ≡ d % 16 → c ≡ d
hex_pair c d h k = omega (arith, h, k)

abbrev head_byte : Str → ℕ
head_byte [] = 0
head_byte (c ∷ s) = c

data Escaped (c : ℕ) (s : Str) : Type 0 where
  kept : is_unreserved c ≡ true → s ≡ c ∷ [] → Escaped c s
  plus : c ≡ 32 → s ≡ 43 ∷ [] → Escaped c s
  hexed : s ≡ 37 ∷ upper_hex (c / 16) ∷ upper_hex (c % 16) ∷ [] → Escaped c s

escape_byte-Escaped : (c : ℕ) → Escaped c (escape_byte c)
unfolding escape_byte
escape_byte-Escaped c = elim (Bool-cases (is_unreserved c)) [
  | inl u ↦ rw u (kept u refl)
  | inr r ↦ elim (Bool-cases (eqb c b' ')) [
    | inl e ↦ rw r (rw e (plus (ground arith) refl))
    | inr e ↦ rw r (rw e (hexed refl))
  ]
]

-- The bytes of one escape determine the byte and what follows.
escaped_pair :
    (c d : ℕ) (u v x y : Str) → Escaped c u → Escaped d v → u ++ x ≡ v ++ y → (c ≡ d) × (x ≡ y)
escaped_pair c d u v x y (kept a e) (kept b f) h =
    let eq : c ∷ x ≡ d ∷ y = ap (λ t. t ++ x) (sym e) ∙ h ∙ ap (λ t. t ++ y) f in
    (ap head_byte eq, ap (drop 1) eq)
escaped_pair c d u v x y (kept a e) (plus b f) h =
    let eq : ◌≡◌ {A = ℕ} c 43 = ap head_byte (ap (λ t. t ++ x) (sym e) ∙ h ∙ ap (λ t. t ++ y) f) in
    ground arith
escaped_pair c d u v x y (kept a e) (hexed f) h =
    let eq : ◌≡◌ {A = ℕ} c 37 = ap head_byte (ap (λ t. t ++ x) (sym e) ∙ h ∙ ap (λ t. t ++ y) f) in
    ground arith
escaped_pair c d u v x y (plus a e) (kept b f) h =
    let eq : ◌≡◌ {A = ℕ} 43 d = ap head_byte (ap (λ t. t ++ x) (sym e) ∙ h ∙ ap (λ t. t ++ y) f) in
    ground arith
escaped_pair c d u v x y (plus a e) (plus b f) h =
    (a ∙ sym b, ap (drop 1) (ap (λ t. t ++ x) (sym e) ∙ h ∙ ap (λ t. t ++ y) f))
escaped_pair c d u v x y (plus a e) (hexed f) h =
    let eq : ◌≡◌ {A = ℕ} 43 37 = ap head_byte (ap (λ t. t ++ x) (sym e) ∙ h ∙ ap (λ t. t ++ y) f) in
    absurd (omega arith)
escaped_pair c d u v x y (hexed e) (kept b f) h =
    let eq : ◌≡◌ {A = ℕ} 37 d = ap head_byte (ap (λ t. t ++ x) (sym e) ∙ h ∙ ap (λ t. t ++ y) f) in
    ground arith
escaped_pair c d u v x y (hexed e) (plus b f) h =
    let eq : ◌≡◌ {A = ℕ} 37 43 = ap head_byte (ap (λ t. t ++ x) (sym e) ∙ h ∙ ap (λ t. t ++ y) f) in
    absurd (omega arith)
escaped_pair c d u v x y (hexed e) (hexed f) h =
    let eq = ap (λ t. t ++ x) (sym e) ∙ h ∙ ap (λ t. t ++ y) f in
    let high = upper_hex-injective (c / 16) (d / 16) (ap (λ t. head_byte (drop 1 t)) eq) in
    let low = upper_hex-injective (c % 16) (d % 16) (ap (λ t. head_byte (drop 2 t)) eq) in
    (hex_pair c d high low, ap (drop 3) eq)

hex_no_bar : (n : ℕ) → n < 16 → is_not_bar (upper_hex n) ≡ true
hex_no_bar n h = ground arith

nonempty : (c : ℕ) (s : Str) → c ∷ s ≢ []
nonempty c s h = cc

abbrev pub is_byte : ℕ → Bool
is_byte c = ltb c 256

byte_no_bar : (c : ℕ) (u : Str) → is_byte c ≡ true → Escaped c u → all is_not_bar u ≡ true
byte_no_bar c u b (kept a e) = rw e (ground arith)
byte_no_bar c u b (plus a e) = rw e refl
byte_no_bar c u b (hexed e) =
    let high : c / 16 < 16 = ground arith in
    let low : c % 16 < 16 = omega arith in
    rw e (ground (arith, hex_no_bar (c / 16) high, hex_no_bar (c % 16) low))

all-join :
    (s t : Str) → all is_not_bar s ≡ true → all is_not_bar t ≡ true → all is_not_bar (s ++ t) ≡ true
all-join [] t h k = k
all-join (c ∷ s) t h k = ground (arith, all-join s t)

query_escape-no_bar : (s : Str) → all is_byte s ≡ true → all is_not_bar (query_escape s) ≡ true
unfolding query_escape
query_escape-no_bar [] h = refl
query_escape-no_bar (c ∷ s) h =
    let first : is_byte c ≡ true = (and_split (is_byte c) (all is_byte s) h).0 in
    let rest : all is_byte s ≡ true = (and_split (is_byte c) (all is_byte s) h).1 in
    all-join (escape_byte c) (query_escape s)
      (byte_no_bar c (escape_byte c) first (escape_byte-Escaped c)) (query_escape-no_bar s rest)

escape_byte-nonempty : (c : ℕ) (u x : Str) → Escaped c u → u ++ x ≢ []
escape_byte-nonempty c u x (kept a e) h = nonempty c x (ap (λ t. t ++ x) (sym e) ∙ h)
escape_byte-nonempty c u x (plus a e) h = nonempty 43 x (ap (λ t. t ++ x) (sym e) ∙ h)
escape_byte-nonempty c u x (hexed e) h =
    nonempty 37 (upper_hex (c / 16) ∷ upper_hex (c % 16) ∷ x) (ap (λ t. t ++ x) (sym e) ∙ h)

-- Strings that are escaped to the same are the same.
pub query_escape-injective : (s t : Str) → query_escape s ≡ query_escape t → s ≡ t
unfolding query_escape
query_escape-injective [] [] h = refl
query_escape-injective [] (d ∷ t) h =
    absurd (escape_byte-nonempty d (escape_byte d) (query_escape t) (escape_byte-Escaped d) (sym h))
query_escape-injective (c ∷ s) [] h =
    absurd (escape_byte-nonempty c (escape_byte c) (query_escape s) (escape_byte-Escaped c) h)
query_escape-injective (c ∷ s) (d ∷ t) h =
    let (first, rest) =
      escaped_pair c d (escape_byte c) (escape_byte d) (query_escape s) (query_escape t)
        (escape_byte-Escaped c) (escape_byte-Escaped d) h in
    ap₂ (λ x xs. x ∷ xs) first (query_escape-injective s t rest)

pub escape_tag_value-no_bar :
    (s : Str) → all is_byte (trim_space s) ≡ true → all is_not_bar (escape_tag_value s) ≡ true
unfolding escape_tag_value
escape_tag_value-no_bar s h = query_escape-no_bar (trim_space s) h

pub escape_tag_value-injective :
    (s t : Str) → escape_tag_value s ≡ escape_tag_value t → trim_space s ≡ trim_space t
unfolding escape_tag_value
escape_tag_value-injective s t h = query_escape-injective (trim_space s) (trim_space t) h
