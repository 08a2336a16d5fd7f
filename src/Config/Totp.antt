-- ===== src/Config/Totp.antt =====
-- totp_keys.go: the keys that seal TOTP secrets, and internal/core/app/deps.go: the cipher made of
-- them.
pub mod Accepted
use superapi.Prelude.{
  ℕ, Str, str, String, Bool, true, false, not, ◌&&◌, ◌||◌, ◌≡◌, ◌≢◌, refl, ap, sym, subst, ◌∙◌,
  Option, none, some, List, [], ◌∷◌, ◌++◌, ◌==◌, Dict, lookup, insert, length, all, leb, eqb,
  if◌then◌else◌, trim_space, arith, inl, inr, Bool-cases, Option-cases,
}
use superapi.Prelude.Pieces.{split_byte, cut_byte}
use superapi.Secrets.{
  key_id_byte, valid_key_id, KeyRing, NewCipher, cipher, refused, new_key_ring_cipher, check_keys,
  is_key, AesGcmCipher, is_missing, legacy_is_wrong, is_empty, ring_checked,
}
use superapi.Config.Env.{Library}
use superapi.Config.Types.{AuthConfig}
use superapi.Config.Guards.{Message}

-- A value, or the error that stands in its place.
pub data Result (A : Type 0) : Type 0 where
  ok : A → Result A
  failed : Message → Result A

abbrev pub error : {A : Type 0} → String → String → Result A
error about what = failed (record { about = about; what = what })

abbrev pub then_with : {A B : Type 0} → Result A → (A → Result B) → Result B
then_with (ok a) f = f a
then_with (failed m) f = failed m

pub record TotpKeyring : Type 0 where
  pub keys : Dict Str
  pub active_kid : Str
  pub legacy_key : Option Str

abbrev pub default_totp_key_id : Str
default_totp_key_id = str "default"

-- ^[A-Za-z0-9._-]{1,32}$
unfoldable pub valid_totp_key_id : Str → Bool
valid_totp_key_id kid = leb 1 (length kid) && leb (length kid) 32 && all key_id_byte kid

abbrev first_decoded : List (Option Str) → Option Str
first_decoded [] = none
first_decoded (none ∷ rest) = first_decoded rest
first_decoded (some key ∷ rest) = some key

abbrev pub sized : String → Option Str → Result Str
sized about none = error about "must be base64-encoded"
sized about (some key) =
    if eqb (length key) 32 then ok key else error about "must decode to 32 bytes"

module _ {F : Type 0} (lib : Library F) where
  abbrev pub decoded : Str → Option Str
  decoded t =
      first_decoded
        (lib.base64_std t ∷ lib.base64_raw_std t ∷ lib.base64_url t ∷ lib.base64_raw_url t ∷ [])

  unfoldable pub decode_key32 : String → Str → Result Str
  unfolding trim_space
  decode_key32 about raw = sized about (decoded (trim_space raw))

  abbrev add_decoded : Str → Dict Str → Result Str → Result (Dict Str)
  add_decoded kid keys (failed m) = failed m
  add_decoded kid keys (ok key) = ok (insert kid key keys)

  abbrev add_new : Str → Str → Dict Str → Option Str → Result (Dict Str)
  add_new kid encoded keys (some key) =
      error "AUTH_TOTP_ENCRYPTION_KEYS" "key id appears more than once"
  add_new kid encoded keys none =
      add_decoded kid keys (decode_key32 "AUTH_TOTP_ENCRYPTION_KEYS" encoded)

  abbrev add_pair : Str → Str → Dict Str → Result (Dict Str)
  add_pair kid encoded keys =
      if kid == [] || encoded == []
      then error "AUTH_TOTP_ENCRYPTION_KEYS" "entry must be kid:base64key"
      else if not (valid_totp_key_id kid)
      then error "AUTH_TOTP_ENCRYPTION_KEYS" "invalid key id"
      else add_new kid encoded keys (lookup kid keys)

  abbrev add_cut : Option (Str × Str) → Dict Str → Result (Dict Str)
  add_cut none keys = error "AUTH_TOTP_ENCRYPTION_KEYS" "entry must be kid:base64key"
  add_cut (some (kid, encoded)) keys = add_pair (trim_space kid) (trim_space encoded) keys

  -- One entry of the list of keys.
  unfoldable pub add_entry : Str → Dict Str → Result (Dict Str)
  unfolding cut_byte trim_space ◌==◌ valid_totp_key_id lookup insert decode_key32
  add_entry entry keys =
      if entry == []
      then error "AUTH_TOTP_ENCRYPTION_KEYS" "entry is empty"
      else add_cut (cut_byte b':' entry) keys

  unfoldable pub add_entries : List Str → Dict Str → Result (Dict Str)
  unfolding add_entry trim_space
  add_entries [] keys = ok keys
  add_entries (entry ∷ entries) keys =
      then_with (add_entry (trim_space entry) keys) (λ more. add_entries entries more)

  abbrev activated : Str → Option Str → Dict Str → Result TotpKeyring
  activated active legacy keys =
      if active == []
      then error "AUTH_TOTP_ENCRYPTION_KEYS" "requires AUTH_TOTP_ENCRYPTION_ACTIVE_KID"
      else if is_missing (lookup active keys)
      then error "AUTH_TOTP_ENCRYPTION_ACTIVE_KID" "is not one of the configured keys"
      else ok (record { keys = keys; active_kid = active; legacy_key = legacy })

  -- The rest of the ring, once the single key is in it.
  unfoldable pub with_list : Str → Str → Option Str → Dict Str → Result TotpKeyring
  unfolding add_entries split_byte lookup ◌==◌
  with_list list active legacy keys =
      if list == []
      then (if not (active == []) && not (active == default_totp_key_id)
          then error "AUTH_TOTP_ENCRYPTION_ACTIVE_KID" "but AUTH_TOTP_ENCRYPTION_KEYS is not set"
          else ok (record { keys = keys; active_kid = default_totp_key_id; legacy_key = legacy }))
      else then_with (add_entries (split_byte b',' list) keys) (activated active legacy)

  unfoldable pub totp_keyring : AuthConfig → Result TotpKeyring
  unfolding with_list decode_key32 trim_space ◌==◌
  totp_keyring a =
      let single = trim_space a.totp_encryption_key in
      let list = trim_space a.totp_encryption_keys in
      let active = trim_space a.totp_encryption_active_kid in
      if single == [] && list == []
      then error "AUTH_TOTP_ENABLED"
          "requires AUTH_TOTP_ENCRYPTION_KEY or AUTH_TOTP_ENCRYPTION_KEYS"
      else if single == []
      then with_list list active none []
      else then_with (decode_key32 "AUTH_TOTP_ENCRYPTION_KEY" single)
          (λ key. with_list list active (some key) ((default_totp_key_id, key) ∷ []))

-- deps.go: the cipher of an AuthConfig whose keyring was read.
unfoldable pub cipher_of_ring : TotpKeyring → NewCipher
unfolding new_key_ring_cipher
cipher_of_ring ring =
    new_key_ring_cipher
      (record { keys = ring.keys; active_kid = ring.active_kid; legacy_key = ring.legacy_key })
