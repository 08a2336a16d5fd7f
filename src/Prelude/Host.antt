-- ===== src/Prelude/Host.antt =====
-- More of package strings, and net.SplitHostPort, over the bytes of a string.
use Prim.Native.Nat.{ℕ, suc, ◌+◌, ◌-◌}
use mathlib.Core.Path.{◌≡◌, refl}
use mathlib.Core.Bool.{Bool, ◌||◌}
use mathlib.Core.Option.{Option, none, some}
use mathlib.Core.List.{[], ◌∷◌, reverse}
use superapi.Prelude.Tests.{eqb, if◌then◌else◌}
use superapi.Prelude.Lists.{any, take, drop, length}
use superapi.Prelude.Text.{Str, str, has_prefix}

-- strings.HasSuffix, strings.TrimSuffix
unfoldable pub has_suffix : Str → Str → Bool
unfolding has_prefix
has_suffix s suffix = has_prefix (reverse s) (reverse suffix)

unfoldable pub trim_suffix : Str → Str → Str
unfolding has_suffix
trim_suffix s suffix = if has_suffix s suffix then take (length s - length suffix) s else s

-- strings.Trim with a cutset of one byte
unfoldable pub trim_byte_left : ℕ → Str → Str
trim_byte_left b [] = []
trim_byte_left b (c ∷ s) = let rest = trim_byte_left b s in if eqb c b then rest else c ∷ s

unfoldable pub trim_byte : ℕ → Str → Str
unfolding trim_byte_left
trim_byte b s = reverse (trim_byte_left b (reverse (trim_byte_left b s)))

-- bytealg.IndexByteString and its last occurrence; `none` is -1.
unfoldable pub index_byte : ℕ → Str → Option ℕ
index_byte b [] = none
index_byte b (c ∷ s) =
    if eqb c b then some 0 else elim (index_byte b s) [ none ↦ none | some i ↦ some (suc i) ]

unfoldable pub last_index_byte : ℕ → Str → Option ℕ
last_index_byte b [] = none
last_index_byte b (c ∷ s) = elim (last_index_byte b s) [
  | some i ↦ some (suc i)
  | none ↦ if eqb c b then some 0 else none
]

abbrev pub has_byte : ℕ → Str → Bool
has_byte b = any (λ c. eqb c b)

-- The host, once the ends of host and port are known: no stray bracket may stand in the rest.
abbrev checked_host : Str → Str → Str → Option Str
checked_host host before after =
    if has_byte b'[' before || has_byte b']' after then none else some host

abbrev bracketed : Str → ℕ → Option ℕ → Option Str
bracketed hostport colon none = none
bracketed hostport colon (some close) =
    if eqb (close + 1) colon
    then checked_host (take (close - 1) (drop 1 hostport)) (drop 1 hostport)
        (drop (close + 1) hostport)
    else none

abbrev host_before : Str → Option ℕ → Option Str
host_before hostport none = none
host_before [] (some colon) = none
host_before (c ∷ s) (some colon) =
    if eqb c b'['
    then bracketed (c ∷ s) colon (index_byte b']' (c ∷ s))
    else if has_byte b':' (take colon (c ∷ s))
    then none
    else checked_host (take colon (c ∷ s)) (c ∷ s) (c ∷ s)

-- The host of net.SplitHostPort; `none` is its error.
unfoldable pub split_host_port : Str → Option Str
unfolding last_index_byte index_byte
split_host_port hostport = host_before hostport (last_index_byte b':' hostport)

splits :
    (split_host_port (str "acme.example.com:8080") ≡ some (str "acme.example.com"))
    × (split_host_port (str "[::1]:80") ≡ some (str "::1"))
    × (split_host_port (str "example.com") ≡ none)
    × (split_host_port (str "a:b:80") ≡ none)
unfolding split_host_port
splits = (refl, refl, refl, refl)

suffixes :
    (trim_suffix (str "acme.example.com") (str ".example.com") ≡ str "acme")
    × (trim_byte b'.' (str "..a.b.") ≡ str "a.b")
unfolding trim_suffix trim_byte
suffixes = (refl, refl)
