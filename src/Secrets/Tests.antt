-- ===== src/Secrets/Tests.antt =====
-- Secrets under a cipher that only frames its text, and the theorem at them.
use superapi.Prelude.{
  Str, str, ◌≡◌, refl, true, not, Option, none, some, [], ◌∷◌, ◌==◌, lookup, arith,
}
use superapi.Secrets.{
  Aead, KeyRing, AesGcmCipher, cipher, refused, invalid_key_id, active_missing, new_key_ring_cipher,
  opened, decrypt_error, needs_rotation, seal, open_secret,
}
use superapi.Secrets.RoundTrip.{OpensAs, open_secret-seal}

abbrev unframe : Str → Option Str
unframe [] = none
unframe (c ∷ s) = some s

abbrev framing : Aead
framing = record {
  nonce_size = 2;
  overhead = 1;
  seal = λ key nonce plaintext aad. 0 ∷ plaintext;
  unseal = λ key nonce sealed aad. unframe sealed;
  unseal-seal = λ key nonce plaintext aad. refl;
  length-seal = λ key nonce plaintext aad. omega arith;
}

abbrev key_one : Str
key_one = str "0123456789abcdef0123456789abcdef"

abbrev key_two : Str
key_two = str "fedcba9876543210fedcba9876543210"

abbrev old_ring : KeyRing
old_ring = record { keys = (str "k1", key_one) ∷ []; active_kid = str "k1"; legacy_key = none }

abbrev old_cipher : AesGcmCipher
old_cipher = record { active = str "k1"; aeads = (str "k1", key_one) ∷ []; legacy = none }

abbrev new_cipher : AesGcmCipher
new_cipher = record {
  active = str "k2";
  aeads = (str "k2", key_two) ∷ (str "k1", key_one) ∷ [];
  legacy = none;
}

made : new_key_ring_cipher old_ring ≡ cipher old_cipher
unfolding new_key_ring_cipher ◌==◌
made = refl

no_such_key :
    new_key_ring_cipher
      (record { keys = (str "k1", key_one) ∷ []; active_kid = str "k2"; legacy_key = none })
    ≡ refused (active_missing (str "k2"))
unfolding new_key_ring_cipher ◌==◌
no_such_key = refl

bad_id :
    new_key_ring_cipher
      (record { keys = (str "k 1", key_one) ∷ []; active_kid = str "k 1"; legacy_key = none })
    ≡ refused (invalid_key_id (str "k 1"))
unfolding new_key_ring_cipher ◌==◌
bad_id = refl

sealed :
    seal framing old_cipher (str "u1") (7 ∷ 8 ∷ []) (str "seed")
    ≡ some (2 ∷ 2 ∷ b'k' ∷ b'1' ∷ 7 ∷ 8 ∷ 0 ∷ str "seed")
unfolding seal ◌==◌
sealed = refl

rotated : needs_rotation new_cipher (2 ∷ 2 ∷ b'k' ∷ b'1' ∷ 7 ∷ 8 ∷ 0 ∷ str "seed") ≡ true
unfolding needs_rotation ◌==◌
rotated = refl

unsealed :
    open_secret framing new_cipher (str "u1") (2 ∷ 2 ∷ b'k' ∷ b'1' ∷ 7 ∷ 8 ∷ 0 ∷ str "seed")
    ≡ opened (str "seed")
unfolding open_secret ◌==◌
unsealed = refl

cut_short : open_secret framing new_cipher (str "u1") (2 ∷ 9 ∷ b'k' ∷ []) ≡ decrypt_error
unfolding open_secret ◌==◌
cut_short = refl

open_secret-seal_example :
    (row : Str) × (key : Str) × (seal framing old_cipher (str "u1") (7 ∷ 8 ∷ []) (str "seed")
      ≡ some row)
    × (lookup (str "k1") old_cipher.aeads ≡ some key)
    × (needs_rotation new_cipher row ≡ not (str "k1" == str "k2"))
    × OpensAs framing
        (str "k1")
        key
        (str "seed")
        (lookup (str "k1") new_cipher.aeads)
        (open_secret framing new_cipher (str "u1") row)
open_secret-seal_example =
    open_secret-seal framing old_ring old_cipher new_cipher (str "u1") (7 ∷ 8 ∷ []) (str "seed")
      made refl
