-- ===== src/Cache/Read/Memory.antt =====
-- Redis in memory, for the tests: numbers, values with their end, and a coding of responses.
use superapi.Prelude.{
  ℕ, zero, suc, ◌+◌, Str, ◌≡◌, refl, ap, Bool, true, Option, none, some, [], ◌∷◌, ◌==◌, ltb,
  if◌then◌else◌, ==-refl,
}
use superapi.Cache.Token.{Versions}
use superapi.Cache.Store.{Redis, CachedResponse, Codec}

abbrev pub Numbers : Type 0
Numbers = (Str → ℕ) × (Str → Option (Str × ℕ))

abbrev pub memory_versions : Versions
memory_versions = record {
  Store = Numbers;
  version = λ key s. s.0 key;
  incr = λ key s. ((λ other. if key == other then suc (s.0 other) else s.0 other), s.1);
  version-incr = λ key other s. refl;
}

abbrev pub live : ℕ → Option (Str × ℕ) → Option Str
live now none = none
live now (some (value, expires_at)) = if ltb now expires_at then some value else none

abbrev pub put_in : ℕ → Str → Str → ℕ → Numbers → Numbers
put_in now key value ttl s = (s.0, λ k. if key == k then some (value, now + ttl) else s.1 k)

pub if_same :
    (b : Bool) (now ttl later : ℕ) (value : Str) (other : Option (Str × ℕ))
    → b ≡ true
    → live later (if b then some (value, now + ttl) else other)
      ≡ (if ltb later (now + ttl) then some value else none)
if_same b now ttl later value other h = rw h refl

abbrev pub memory : Redis
memory = record {
  versions = memory_versions;
  held = λ later key s. live later (s.1 key);
  put = put_in;
  held-put = λ now later ttl key value s order.
      if_same (key == key) now ttl later value (s.1 key) (==-refl key);
  version-put = λ now ttl key value other s h. refl;
}

unfoldable pub framed : Str → Str → Str
framed [] body = 0 ∷ body
framed (c ∷ content_type) body = suc c ∷ framed content_type body

unfoldable pub body_in : Str → Str
body_in [] = []
body_in (zero ∷ s) = s
body_in (suc c ∷ s) = body_in s

unfoldable pub type_in : Str → Str
type_in [] = []
type_in (zero ∷ s) = []
type_in (suc c ∷ s) = c ∷ type_in s

pub body_in-framed : (content_type body : Str) → body_in (framed content_type body) ≡ body
unfolding body_in framed
body_in-framed [] body = refl
body_in-framed (c ∷ content_type) body = body_in-framed content_type body

pub type_in-framed : (content_type body : Str) → type_in (framed content_type body) ≡ content_type
unfolding type_in framed
type_in-framed [] body = refl
type_in-framed (c ∷ content_type) body = ap (λ s. c ∷ s) (type_in-framed content_type body)

abbrev pub decode_frame : Str → Option CachedResponse
decode_frame [] = none
decode_frame (status ∷ s) =
    some (record { status = status; body = body_in s; content_type = type_in s })

abbrev pub response : ℕ → Str → Str → CachedResponse
response status body content_type = record {
  status = status;
  body = body;
  content_type = content_type;
}

pub response_of :
    {body content_type : Str} (r : CachedResponse)
    → body ≡ r.body
    → content_type ≡ r.content_type
    → some (response r.status body content_type) ≡ some r
response_of r b t = rw (b, t) refl

abbrev pub frames : Codec
frames = record {
  encode = λ r. r.status ∷ framed r.content_type r.body;
  decode = decode_frame;
  decode-encode = λ r valid.
      response_of r (body_in-framed r.content_type r.body) (type_in-framed r.content_type r.body);
}
