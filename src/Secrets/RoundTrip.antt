-- ===== src/Secrets/RoundTrip.antt =====
-- What is sealed under one ring of keys is opened, and marked for rotation, under another.
use superapi.Prelude.{
  ◌+◌, ◌≤◌, Str, ◌≡◌, ◌≢◌, refl, ap, ap₂, sym, ◌∙◌, true, false, not, ◌&&◌, Option, none, some, [],
  ◌∷◌, ◌++◌, ◌==◌, ==-eq, ==-refl, Dict, lookup, length, length-append, take, drop, all, leb, ltb,
  eqb, ◌⊎◌, inl, inr, arith, Bool-cases, and_split, subst,
}
use superapi.Secrets.{
  Aead, valid_key_id, KeyRing, RingError, AesGcmCipher, cipher, check_keys, is_missing,
  legacy_is_wrong, is_empty, is_key, ring_checked, new_key_ring_cipher, Opened, opened,
  key_not_configured, split_checked, split_v2, needs_other_key, needs_rotation, seal_with, seal,
  opened_or, open_with, open_under, open_v2, open_secret, secret_aad_prefix_v2, secret_format_v2,
  key_id_byte, max_key_id_length,
}

take-length : (a b : Str) → take (length a) (a ++ b) ≡ a
take-length [] b = refl
take-length (c ∷ a) b = ap (λ s. c ∷ s) (take-length a b)

drop-length : (a b : Str) → drop (length a) (a ++ b) ≡ b
drop-length [] b = refl
drop-length (c ∷ a) b = drop-length a b

check_keys-valid :
    (keys : Dict Str) (kid key : Str)
    → check_keys keys ≡ none
    → lookup kid keys ≡ some key
    → valid_key_id kid ≡ true
unfolding check_keys lookup
check_keys-valid [] kid key h k = cc
check_keys-valid ((name, old) ∷ keys) kid key h k = elim (Bool-cases (valid_key_id name)) [
  | inr bad ↦ cc (rw bad at h)
  | inl good ↦ elim (Bool-cases (is_key old)) [
    | inr bad ↦ cc (rw bad at (rw good at h))
    | inl fits ↦ elim (Bool-cases (name == kid)) [
      | inl here ↦ ap valid_key_id (sym (==-eq name kid here)) ∙ good
      | inr later ↦
          let rest : check_keys keys ≡ none = rw fits at (rw good at h) in
          let found : lookup kid keys ≡ some key = rw later at k in
          check_keys-valid keys kid key rest found
    ]
  ]
]

-- A cipher that is made has a valid active key id, with a key.
pub record IsUsable (c : AesGcmCipher) : Type 0 where
  pub key : Str
  pub has_key : lookup c.active c.aeads ≡ some key
  pub valid : valid_key_id c.active ≡ true

has_value : (o : Option Str) → is_missing o ≡ false → (key : Str) × (o ≡ some key)
has_value none h = cc
has_value (some key) h = (key, refl)

ring_checked-IsUsable :
    (ring : KeyRing) (o : Option RingError) (c : AesGcmCipher)
    → check_keys ring.keys ≡ o
    → ring_checked ring o ≡ cipher c
    → IsUsable c
ring_checked-IsUsable ring (some e) c checked h = cc
ring_checked-IsUsable ring none c checked h =
    elim (Bool-cases (is_missing (lookup ring.active_kid ring.keys))) [
      | inl missing ↦ cc (rw missing at h)
      | inr there ↦ elim (Bool-cases (legacy_is_wrong ring.legacy_key)) [
        | inl wrong ↦ cc (rw wrong at (rw there at h))
        | inr fine ↦
            let (key, found) = has_value (lookup ring.active_kid ring.keys) there in
            let made : cipher
                  (record { active = ring.active_kid; aeads = ring.keys; legacy = ring.legacy_key })
                ≡ cipher c =
              rw fine at (rw there at h) in
            let same : ◌≡◌ {A = AesGcmCipher}
                (record { active = ring.active_kid; aeads = ring.keys; legacy = ring.legacy_key })
                c =
              cc in
            subst IsUsable same (record {
              key = key;
              has_key = found;
              valid = check_keys-valid ring.keys ring.active_kid key checked found;
            })
      ]
    ]

new_key_ring_cipher-IsUsable :
    (ring : KeyRing) (c : AesGcmCipher) → new_key_ring_cipher ring ≡ cipher c → IsUsable c
unfolding new_key_ring_cipher
new_key_ring_cipher-IsUsable ring c h = elim (Bool-cases (is_empty ring.keys)) [
  | inl empty ↦ cc (rw empty at h)
  | inr some_keys ↦ ring_checked-IsUsable ring (check_keys ring.keys) c refl (rw some_keys at h)
]

key_id_length : (kid : Str) → valid_key_id kid ≡ true → (1 ≤ length kid) × (length kid ≤ 32)
unfolding valid_key_id
key_id_length kid h =
    let (bounds, bytes) =
      and_split (leb 1 (length kid) && leb (length kid) max_key_id_length) (all key_id_byte kid)
        h in
    let (low, high) = and_split (leb 1 (length kid)) (leb (length kid) max_key_id_length) bounds in
    (ground (arith, low), ground (arith, high))

split_checked-header :
    (kid rest : Str)
    → valid_key_id kid ≡ true
    → split_checked (length kid) (kid ++ rest) ≡ some (kid, rest)
split_checked-header kid rest valid =
    let (low, high) = key_id_length kid valid in
    let long = length-append kid rest in
    let not_zero : eqb (length kid) 0 ≡ false = ground arith in
    let not_long : ltb max_key_id_length (length kid) ≡ false = ground arith in
    let fits : ltb (length (kid ++ rest)) (length kid) ≡ false = ground arith in
    rw not_zero (
      rw not_long
        (rw fits (ap₂ (λ a b. some (a, b)) (take-length kid rest) (drop-length kid rest))))

module _ (aead : Aead) where
  open_with-sealed :
      (key nonce plaintext aad : Str)
      → length nonce ≡ aead.nonce_size
      → open_with aead key (nonce ++ aead.seal key nonce plaintext aad) aad ≡ opened plaintext
  unfolding open_with
  open_with-sealed key nonce plaintext aad size =
      let sealed = aead.seal key nonce plaintext aad in
      let whole = length-append nonce sealed in
      let grown = aead.length-seal key nonce plaintext aad in
      let fits : ltb (length (nonce ++ sealed)) (aead.nonce_size + aead.overhead) ≡ false =
        ground arith in
      let front : take aead.nonce_size (nonce ++ sealed) ≡ nonce =
        ap (λ n. take n (nonce ++ sealed)) (sym size) ∙ take-length nonce sealed in
      let back : drop aead.nonce_size (nonce ++ sealed) ≡ sealed =
        ap (λ n. drop n (nonce ++ sealed)) (sym size) ∙ drop-length nonce sealed in
      rw fits (
        ap₂ (λ n s. opened_or aead (aead.unseal key n s aad)) front back
        ∙ ap (opened_or aead) (aead.unseal-seal key nonce plaintext aad))

  -- What opening says under another ring: the key's id is not configured there, another key has that
  -- id, or it is the same key and the text comes back.
  abbrev pub OpensAs : Str → Str → Str → Option Str → Opened → Type 0
  OpensAs kid key plaintext found o =
      ((found ≡ none) × (o ≡ key_not_configured kid))
      ⊎ (((other : Str) × (found ≡ some other) × (other ≢ key))
          ⊎ ((found ≡ some key) × (o ≡ opened plaintext)))

  open_under-sealed :
      (user kid key nonce plaintext : Str) (found : Option Str)
      → length nonce ≡ aead.nonce_size
      → OpensAs kid key plaintext found (
          open_under aead user kid
            (nonce ++ aead.seal key nonce plaintext (secret_aad_prefix_v2 ++ user))
            found)
  open_under-sealed user kid key nonce plaintext none size = inl (refl, refl)
  open_under-sealed user kid key nonce plaintext (some other) size =
      elim (Bool-cases (other == key)) [
        | inr differs ↦
            inr (inl (other, refl, λ e. cc (ap (λ k. k == key) e, ==-refl key, differs)))
        | inl same ↦
            let e = ==-eq other key same in
            let aad = secret_aad_prefix_v2 ++ user in
            inr (
              inr (
                ap some e,
                ap (λ k. open_with aead k (nonce ++ aead.seal key nonce plaintext aad) aad) e
                    ∙ open_with-sealed key nonce plaintext aad size,
              ))
      ]

  -- A secret that a cipher made from a ring seals: it can be sealed; another cipher marks it for
  -- rotation exactly if its active key id is another; and opening it there for the same user gives
  -- the text back if the same key has the id, and names the id if no key has it. The nonce has the
  -- size that the aead asks for.
  pub open_secret-seal :
      (ring : KeyRing) (c d : AesGcmCipher) (user nonce plaintext : Str)
      → new_key_ring_cipher ring ≡ cipher c
      → length nonce ≡ aead.nonce_size
      → (sealed : Str) × (key : Str) × (seal aead c user nonce plaintext ≡ some sealed)
        × (lookup c.active c.aeads ≡ some key)
        × (needs_rotation d sealed ≡ not (c.active == d.active))
        × OpensAs c.active key plaintext (lookup c.active d.aeads) (open_secret aead d user sealed)
  unfolding seal open_secret needs_rotation split_v2
  open_secret-seal ring c d user nonce plaintext made size =
      let usable = new_key_ring_cipher-IsUsable ring c made in
      let key = usable.key in
      let body = nonce ++ aead.seal key nonce plaintext (secret_aad_prefix_v2 ++ user) in
      let header = split_checked-header c.active body usable.valid in
      (
        secret_format_v2 ∷ length c.active ∷ (c.active ++ body),
        key,
        ap (seal_with aead c.active user nonce plaintext) usable.has_key,
        usable.has_key,
        ap (needs_other_key d.active) header,
        subst (OpensAs c.active key plaintext (lookup c.active d.aeads))
            (ap (open_v2 aead d user) (sym header))
            (open_under-sealed user c.active key nonce plaintext (lookup c.active d.aeads) size),
      )
