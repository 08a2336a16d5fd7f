-- ===== src/Secrets.antt =====
-- internal/core/auth/secret_cipher.go: secrets at rest, sealed under one of several keys. AES-GCM is
-- the interface Aead; the nonce, which is random, is an argument. Which of several errors a ring with
-- more than one fault gives depends on the order in which Go ranges over a map; here it is the first.
pub mod RoundTrip
mod Tests
use superapi.Prelude.{
  ℕ, suc, ◌+◌, Str, String, str, ◌≡◌, Bool, true, false, not, ◌&&◌, ◌||◌, Option, none, some, List,
  [], ◌∷◌, ◌++◌, ◌==◌, Dict, lookup, length, take, drop, all, leb, ltb, eqb, if◌then◌else◌,
}

pub record Aead : Type 0 where
  pub nonce_size : ℕ
  pub overhead : ℕ
  -- key, nonce, text and additional data
  pub seal : Str → Str → Str → Str → Str
  pub unseal : Str → Str → Str → Str → Option Str
  -- What is sealed is opened with the same key, nonce and additional data.
  pub unseal-seal :
      (key nonce plaintext aad : Str)
      → unseal key nonce (seal key nonce plaintext aad) aad ≡ some plaintext
  pub length-seal :
      (key nonce plaintext aad : Str)
      → length (seal key nonce plaintext aad) ≡ length plaintext + overhead

abbrev pub secret_format_v1 : ℕ
secret_format_v1 = 1

abbrev pub secret_format_v2 : ℕ
secret_format_v2 = 2

abbrev pub secret_aad_prefix_v1 : Str
secret_aad_prefix_v1 = str "superapi/totp/v1:"

abbrev pub secret_aad_prefix_v2 : Str
secret_aad_prefix_v2 = str "superapi/totp/v2:"

abbrev pub max_key_id_length : ℕ
max_key_id_length = 32

abbrev pub key_id_byte : ℕ → Bool
key_id_byte c =
    leb b'A' c && leb c b'Z'
    || leb b'a' c && leb c b'z'
    || leb b'0' c && leb c b'9'
    || eqb c b'.'
    || eqb c b'_'
    || eqb c b'-'

unfoldable pub valid_key_id : Str → Bool
valid_key_id kid = leb 1 (length kid) && leb (length kid) max_key_id_length && all key_id_byte kid

pub record KeyRing : Type 0 where
  pub keys : Dict Str
  pub active_kid : Str
  pub legacy_key : Option Str

pub data RingError : Type 0 where
  no_keys : RingError
  invalid_key_id : Str → RingError
  invalid_key : Str → RingError
  active_missing : Str → RingError
  invalid_legacy_key : RingError

-- newAEAD accepts 32 bytes; a cipher is its key here.
abbrev pub is_key : Str → Bool
is_key key = eqb (length key) 32

pub record AesGcmCipher : Type 0 where
  pub active : Str
  pub aeads : Dict Str
  pub legacy : Option Str

pub data NewCipher : Type 0 where
  cipher : AesGcmCipher → NewCipher
  refused : RingError → NewCipher

-- The loop over the keys; `none` is no error.
unfoldable pub check_keys : Dict Str → Option RingError
unfolding valid_key_id
check_keys [] = none
check_keys ((kid, key) ∷ keys) =
    let rest = check_keys keys in
    if not (valid_key_id kid)
    then some (invalid_key_id kid)
    else if not (is_key key)
    then some (invalid_key kid)
    else rest

abbrev pub is_missing : Option Str → Bool
is_missing none = true
is_missing (some key) = false

abbrev pub legacy_is_wrong : Option Str → Bool
legacy_is_wrong none = false
legacy_is_wrong (some key) = not (is_key key)

abbrev pub is_empty : Dict Str → Bool
is_empty [] = true
is_empty (entry ∷ entries) = false

abbrev pub ring_checked : KeyRing → Option RingError → NewCipher
ring_checked ring (some e) = refused e
ring_checked ring none =
    if is_missing (lookup ring.active_kid ring.keys)
    then refused (active_missing ring.active_kid)
    else if legacy_is_wrong ring.legacy_key
    then refused invalid_legacy_key
    else cipher (record { active = ring.active_kid; aeads = ring.keys; legacy = ring.legacy_key })

unfoldable pub new_key_ring_cipher : KeyRing → NewCipher
unfolding check_keys lookup
new_key_ring_cipher ring =
    if is_empty ring.keys then refused no_keys else ring_checked ring (check_keys ring.keys)

pub data Opened : Type 0 where
  opened : Str → Opened
  decrypt_error : Opened
  key_not_configured : Str → Opened

abbrev pub split_checked : ℕ → Str → Option (Str × Str)
split_checked n rest =
    if eqb n 0 || ltb max_key_id_length n || ltb (length rest) n
    then none
    else some (take n rest, drop n rest)

unfoldable pub split_v2 : Str → Option (Str × Str)
split_v2 [] = none
split_v2 (format ∷ []) = none
split_v2 (format ∷ n ∷ rest) = split_checked n rest

abbrev pub needs_other_key : Str → Option (Str × Str) → Bool
needs_other_key active none = false
needs_other_key active (some (kid, rest)) = not (kid == active)

unfoldable pub needs_rotation : AesGcmCipher → Str → Bool
unfolding split_v2 ◌==◌
needs_rotation c [] = false
needs_rotation c (format ∷ rest) =
    if eqb format secret_format_v1
    then true
    else if eqb format secret_format_v2
    then needs_other_key c.active (split_v2 (format ∷ rest))
    else false

module _ (aead : Aead) where
  abbrev pub seal_with : Str → Str → Str → Str → Option Str → Option Str
  seal_with active user_id nonce plaintext none = none
  seal_with active user_id nonce plaintext (some key) = some (
      secret_format_v2
      ∷ length active
      ∷ (active ++ (nonce ++ aead.seal key nonce plaintext (secret_aad_prefix_v2 ++ user_id))))

  -- `none` where the active key is missing, which panics; the length of a key id is a byte.
  unfoldable pub seal : AesGcmCipher → Str → Str → Str → Option Str
  unfolding lookup
  seal c user_id nonce plaintext =
      seal_with c.active user_id nonce plaintext (lookup c.active c.aeads)

  abbrev pub opened_or : Option Str → Opened
  opened_or none = decrypt_error
  opened_or (some plaintext) = opened plaintext

  unfoldable pub open_with : Str → Str → Str → Opened
  open_with key nonce_and_sealed aad =
      if ltb (length nonce_and_sealed) (aead.nonce_size + aead.overhead)
      then decrypt_error
      else opened_or (
          aead.unseal key (take aead.nonce_size nonce_and_sealed)
            (drop aead.nonce_size nonce_and_sealed) aad)

  abbrev pub open_v1 : Str → Str → Option Str → Opened
  open_v1 user_id rest none = key_not_configured []
  open_v1 user_id rest (some key) = open_with key rest (secret_aad_prefix_v1 ++ user_id)

  abbrev pub open_under : Str → Str → Str → Option Str → Opened
  open_under user_id kid rest none = key_not_configured kid
  open_under user_id kid rest (some key) = open_with key rest (secret_aad_prefix_v2 ++ user_id)

  abbrev pub open_v2 : AesGcmCipher → Str → Option (Str × Str) → Opened
  open_v2 c user_id none = decrypt_error
  open_v2 c user_id (some (kid, rest)) = open_under user_id kid rest (lookup kid c.aeads)

  unfoldable pub open_secret : AesGcmCipher → Str → Str → Opened
  unfolding open_with split_v2 lookup
  open_secret c user_id [] = decrypt_error
  open_secret c user_id (format ∷ rest) =
      if eqb format secret_format_v1
      then open_v1 user_id rest c.legacy
      else if eqb format secret_format_v2
      then open_v2 c user_id (split_v2 (format ∷ rest))
      else decrypt_error
