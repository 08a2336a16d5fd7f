-- ===== src/Cache/Control/Vary.antt =====
-- What is appended to Vary is among its names, and is not appended again.
use superapi.Prelude.{
  ℕ, Str, ◌≡◌, refl, ap, ap₂, ◌∙◌, Bool, true, false, not, ◌&&◌, ◌||◌, List, [], ◌∷◌, ◌++◌, ==-refl,
  any, all, eqb, is_plain, trim_space, trim_space-plain, to_lower, equal_fold, if◌then◌else◌,
  and_split, arith,
}
use superapi.Prelude.Pieces.{split_byte}
use superapi.Cache.Control.{varies, append_vary_header, append_vary_headers}

pub passed : {A : Type 0} (b : Bool) (x y : A) → b ≡ true → (if b then x else y) ≡ x
passed b x y h = rw h refl

-- A byte of a header's name: printable, and no comma.
abbrev pub name_byte : ℕ → Bool
name_byte c = is_plain c && not (eqb c b',')

abbrev pub is_name : Str → Bool
is_name = all name_byte

pub is_name-plain : (s : Str) → is_name s ≡ true → all is_plain s ≡ true
is_name-plain [] h = refl
is_name-plain (c ∷ s) h = ground (arith, is_name-plain s)

pub split_byte-one : (s : Str) → is_name s ≡ true → split_byte b',' s ≡ s ∷ []
unfolding split_byte
split_byte-one [] h = refl
split_byte-one (c ∷ s) h = ground (arith, split_byte-one s)

pub varies_self : (v : Str) → is_name v ≡ true → varies v (v ∷ []) ≡ true
unfolding varies equal_fold
varies_self v h =
    ap (λ parts. any (λ part. equal_fold (trim_space part) v) parts || false) (split_byte-one v h)
    ∙ ap (λ t. (equal_fold t v || false) || false) (trim_space-plain v (is_name-plain v h))
    ∙ ap (λ b. (b || false) || false) (==-refl (to_lower v))

pub varies-append : (v : Str) (xs ys : List Str) → varies v (xs ++ ys) ≡ varies v xs || varies v ys
unfolding varies
varies-append v [] ys = refl
varies-append v (x ∷ xs) ys = ground (arith, varies-append v xs ys)

pub append_vary_header-keeps :
    (v w : Str) (h : List Str) → varies v h ≡ true → varies v (append_vary_header w h) ≡ true
unfolding append_vary_header
append_vary_header-keeps v w h k = ground (arith, varies-append v h (w ∷ []))

pub append_vary_header-varies :
    (v : Str) (h : List Str) → is_name v ≡ true → varies v (append_vary_header v h) ≡ true
unfolding append_vary_header
append_vary_header-varies v h k = ground (arith, varies-append v h (v ∷ []), varies_self v k)

pub append_vary_headers-keeps :
    (v : Str) (vs h : List Str) → varies v h ≡ true → varies v (append_vary_headers vs h) ≡ true
unfolding append_vary_headers
append_vary_headers-keeps v [] h k = k
append_vary_headers-keeps v (w ∷ vs) h k =
    append_vary_headers-keeps v vs (append_vary_header w h) (append_vary_header-keeps v w h k)

-- All values of a list are among the names.
abbrev pub all_vary : List Str → List Str → Bool
all_vary vs h = all (λ v. varies v h) vs

pub append_vary_headers-varies :
    (vs h : List Str) → all is_name vs ≡ true → all_vary vs (append_vary_headers vs h) ≡ true
unfolding append_vary_headers
append_vary_headers-varies [] h k = refl
append_vary_headers-varies (v ∷ vs) h k =
    let (first, rest) = and_split (is_name v) (all is_name vs) k in
    let h' = append_vary_header v h in
    ap₂ (λ a b. a && b) (append_vary_headers-keeps v vs h' (append_vary_header-varies v h first))
      (append_vary_headers-varies vs h' rest)

pub append_vary_headers-same :
    (vs h : List Str) → all_vary vs h ≡ true → append_vary_headers vs h ≡ h
unfolding append_vary_headers append_vary_header
append_vary_headers-same [] h k = refl
append_vary_headers-same (v ∷ vs) h k =
    let (first, rest) = and_split (varies v h) (all_vary vs h) k in
    ap (append_vary_headers vs) (passed (varies v h) h (h ++ v ∷ []) first)
    ∙ append_vary_headers-same vs h rest
