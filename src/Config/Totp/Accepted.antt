-- ===== src/Config/Totp/Accepted.antt =====
-- A key ring that the configuration accepts is one that the cipher accepts.
use superapi.Prelude.{
  Str, String, Bool, true, false, not, ◌&&◌, ◌≡◌, ◌⊎◌, refl, sym, ◌∙◌, Option, none, some, List, [],
  ◌∷◌, ◌==◌, ==-refl, Dict, lookup, insert, if◌then◌else◌, trim_space, arith, inl, inr, Bool-cases,
}
use superapi.Prelude.Pieces.{split_byte, cut_byte}
use superapi.Secrets.{
  valid_key_id, cipher, new_key_ring_cipher, check_keys, is_key, is_missing, legacy_is_wrong,
  is_empty,
}
use superapi.Config.Env.{Library}
use superapi.Config.Types.{AuthConfig}
use superapi.Config.Guards.{Message}
use superapi.Config.Totp.{
  Result, ok, failed, then_with, TotpKeyring, default_totp_key_id, valid_totp_key_id, sized,
  decoded, decode_key32, add_decoded, add_new, add_pair, add_cut, add_entry, add_entries, activated,
  with_list, totp_keyring, cipher_of_ring,
}

check_keys-insert :
    (kid key : Str) (keys : Dict Str)
    → valid_key_id kid ≡ true
    → is_key key ≡ true
    → check_keys keys ≡ none
    → check_keys (insert kid key keys) ≡ none
unfolding check_keys insert
check_keys-insert kid key [] v k h = ground arith
check_keys-insert kid key ((j, w) ∷ keys) v k h = ground (arith, check_keys-insert kid key keys v k)

sized-is_key :
    (about : String) (o : Option Str) (key : Str) → sized about o ≡ ok key → is_key key ≡ true
sized-is_key about none key h = ground arith
sized-is_key about (some k) key h = ground arith

passed :
    {A : Type 0} (b : Bool) (m : Message) (r : Result A) (a : A)
    → (if b then failed m else r) ≡ ok a
    → (b ≡ false) × (r ≡ ok a)
passed true m r a h = ground arith
passed false m r a h = (refl, h)

not-false : (b : Bool) → not b ≡ false → b ≡ true
not-false b h = ground arith

not_missing-not_empty :
    (k : Str) (keys : Dict Str) → is_missing (lookup k keys) ≡ false → is_empty keys ≡ false
unfolding lookup
not_missing-not_empty k [] h = ground arith
not_missing-not_empty k (entry ∷ keys) h = refl

-- Every key of the result is valid, if those before were.
abbrev Keeps : Dict Str → Result (Dict Str) → Type 0
Keeps keys r = (more : Dict Str) → r ≡ ok more → check_keys keys ≡ none → check_keys more ≡ none

module _ {F : Type 0} (lib : Library F) where
  decode_key32-is_key :
      (about : String) (raw key : Str) → decode_key32 lib about raw ≡ ok key → is_key key ≡ true
  unfolding decode_key32
  decode_key32-is_key about raw key h = sized-is_key about (decoded lib (trim_space raw)) key h

  add_decoded-Keeps :
      (kid : Str) (keys : Dict Str) (r : Result Str)
      → valid_key_id kid ≡ true
      → ((key : Str) → r ≡ ok key → is_key key ≡ true)
      → Keeps keys (add_decoded lib kid keys r)
  add_decoded-Keeps kid keys (failed m) v k more eq h = ground arith
  add_decoded-Keeps kid keys (ok key) v k more eq h =
      ground (arith, check_keys-insert kid key keys v (k key refl) h)

  add_new-Keeps :
      (kid encoded : Str) (keys : Dict Str) (o : Option Str)
      → valid_key_id kid ≡ true
      → Keeps keys (add_new lib kid encoded keys o)
  add_new-Keeps kid encoded keys (some key) v more eq h = ground arith
  add_new-Keeps kid encoded keys none v more eq h =
      add_decoded-Keeps kid keys (decode_key32 lib "AUTH_TOTP_ENCRYPTION_KEYS" encoded) v
        (decode_key32-is_key "AUTH_TOTP_ENCRYPTION_KEYS" encoded) more eq h

  valid_totp_key_id-eq : (kid : Str) → valid_totp_key_id kid ≡ valid_key_id kid
  unfolding valid_totp_key_id valid_key_id
  valid_totp_key_id-eq kid = refl

  add_pair-Keeps :
      (kid encoded : Str) (keys : Dict Str) → Keeps keys (add_pair lib kid encoded keys)
  add_pair-Keeps kid encoded keys more eq h =
      let shaped = passed _ _ _ more eq in
      let named = passed (not (valid_totp_key_id kid)) _ _ more shaped.1 in
      let valid : valid_key_id kid ≡ true =
        sym (valid_totp_key_id-eq kid) ∙ not-false (valid_totp_key_id kid) named.0 in
      add_new-Keeps kid encoded keys (lookup kid keys) valid more named.1 h

  add_cut-Keeps : (o : Option (Str × Str)) (keys : Dict Str) → Keeps keys (add_cut lib o keys)
  add_cut-Keeps none keys more eq h = ground arith
  add_cut-Keeps (some (kid, encoded)) keys more eq h =
      add_pair-Keeps (trim_space kid) (trim_space encoded) keys more eq h

  add_entry-Keeps : (entry : Str) (keys : Dict Str) → Keeps keys (add_entry lib entry keys)
  unfolding add_entry
  add_entry-Keeps entry keys more eq h = elim (Bool-cases (entry == [])) [
    | inl blank ↦ ground arith
    | inr full ↦ add_cut-Keeps (cut_byte b':' entry) keys more (ground arith) h
  ]

  and_then-Keeps :
      (keys : Dict Str) (r : Result (Dict Str)) (f : Dict Str → Result (Dict Str))
      → Keeps keys r
      → ((more : Dict Str) → Keeps more (f more))
      → Keeps keys (then_with r f)
  and_then-Keeps keys (failed m) f k g more eq h = ground arith
  and_then-Keeps keys (ok next) f k g more eq h = g next more eq (k next refl h)

  add_entries-Keeps :
      (entries : List Str) (keys : Dict Str) → Keeps keys (add_entries lib entries keys)
  unfolding add_entries
  add_entries-Keeps [] keys more eq h = ground arith
  add_entries-Keeps (entry ∷ entries) keys more eq h =
      and_then-Keeps keys (add_entry lib (trim_space entry) keys) (λ m. add_entries lib entries m)
        (add_entry-Keeps (trim_space entry) keys) (add_entries-Keeps entries) more eq h

  -- What the cipher asks of a ring.
  abbrev Fits : TotpKeyring → Type 0
  Fits ring =
      (check_keys ring.keys ≡ none)
      × (is_missing (lookup ring.active_kid ring.keys) ≡ false)
      × (legacy_is_wrong ring.legacy_key ≡ false)

  activated-Fits :
      (active : Str) (legacy : Option Str) (keys : Dict Str) (ring : TotpKeyring)
      → activated lib active legacy keys ≡ ok ring
      → check_keys keys ≡ none
      → legacy_is_wrong legacy ≡ false
      → Fits ring
  activated-Fits active legacy keys ring eq h l = ground arith

  listed-Fits :
      (active : Str) (legacy : Option Str) (keys : Dict Str) (r : Result (Dict Str))
      (ring : TotpKeyring)
      → Keeps keys r
      → then_with r (activated lib active legacy) ≡ ok ring
      → check_keys keys ≡ none
      → legacy_is_wrong legacy ≡ false
      → Fits ring
  listed-Fits active legacy keys (failed m) ring k eq h l = ground arith
  listed-Fits active legacy keys (ok more) ring k eq h l =
      activated-Fits active legacy more ring eq (k more refl h) l

  with_list-Fits :
      (list active : Str) (legacy : Option Str) (keys : Dict Str) (ring : TotpKeyring)
      → with_list lib list active legacy keys ≡ ok ring
      → ((list == []) ≡ false) ⊎ (is_missing (lookup default_totp_key_id keys) ≡ false)
      → check_keys keys ≡ none
      → legacy_is_wrong legacy ≡ false
      → Fits ring
  unfolding with_list
  with_list-Fits list active legacy keys ring eq d h l = elim (Bool-cases (list == [])) [
    | inl alone ↦ ground arith
    | inr listed ↦
        listed-Fits active legacy keys (add_entries lib (split_byte b',' list) keys) ring
          (add_entries-Keeps (split_byte b',' list) keys) (ground arith) h l
  ]

  single-Fits :
      (list active : Str) (r : Result Str) (ring : TotpKeyring)
      → ((key : Str) → r ≡ ok key → is_key key ≡ true)
      → then_with r (λ key. with_list lib list active (some key) ((default_totp_key_id, key) ∷ []))
        ≡ ok ring
      → Fits ring
  single-Fits list active (failed m) ring k eq = ground arith
  single-Fits list active (ok key) ring k eq =
      let is = k key refl in
      with_list-Fits list active (some key) ((default_totp_key_id, key) ∷ []) ring eq
        (inr (unfold lookup in ground (arith, ==-refl default_totp_key_id)))
        (unfold check_keys valid_key_id in ground arith) (ground arith)

  totp_keyring-Fits :
      (a : AuthConfig) (ring : TotpKeyring) → totp_keyring lib a ≡ ok ring → Fits ring
  unfolding totp_keyring check_keys
  totp_keyring-Fits a ring eq =
      let single = trim_space a.totp_encryption_key in
      let list = trim_space a.totp_encryption_keys in
      let active = trim_space a.totp_encryption_active_kid in
      let some_key = passed (single == [] && list == []) _ _ ring eq in
      elim (Bool-cases (single == [])) [
        | inl absent ↦
            with_list-Fits list active none [] ring (rw absent at some_key.1)
              (inl (rw absent at some_key.0)) refl refl
        | inr present ↦
            single-Fits list active (decode_key32 lib "AUTH_TOTP_ENCRYPTION_KEY" single) ring
              (decode_key32-is_key "AUTH_TOTP_ENCRYPTION_KEY" single) (rw present at some_key.1)
      ]

  Fits-accepted :
      (ring : TotpKeyring)
      → Fits ring
      → cipher_of_ring ring
        ≡ cipher (record { active = ring.active_kid; aeads = ring.keys; legacy = ring.legacy_key })
  unfolding cipher_of_ring new_key_ring_cipher
  Fits-accepted ring f =
      rw (not_missing-not_empty ring.active_kid ring.keys f.1, f.0, f.1, f.2) refl

  -- A key ring that the configuration accepts makes a cipher, with the same keys: startup cannot
  -- fail on a key id, the length of a key or a missing active key after the lint has passed.
  pub totp_keyring-accepted :
      (a : AuthConfig) (ring : TotpKeyring)
      → totp_keyring lib a ≡ ok ring
      → cipher_of_ring ring
        ≡ cipher (record { active = ring.active_kid; aeads = ring.keys; legacy = ring.legacy_key })
  totp_keyring-accepted a ring eq = Fits-accepted ring (totp_keyring-Fits a ring eq)
