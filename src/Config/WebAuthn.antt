-- ===== src/Config/WebAuthn.antt =====
-- webauthn.go: the relying party of WebAuthn.
use superapi.Prelude.{
  ℕ, Str, str, String, Bool, true, false, not, ◌&&◌, ◌||◌, List, [], ◌∷◌, ◌++◌, ◌==◌, length, any,
  all, mem, eqb, leb, ltb, if◌then◌else◌, trim_space, to_lower,
}
use superapi.Prelude.Pieces.{split_byte, contains_any}
use superapi.Config.Env.{Library, Environment, os_getenv}
use superapi.Config.Guards.{Guard, refuse_of, each, starts_with}

abbrev max_rp_id_length : ℕ
max_rp_id_length = 253

abbrev max_rp_id_label_length : ℕ
max_rp_id_label_length = 63

-- " #/:<>?@[\\]^|%"
abbrev forbidden_rp_id_code_points : Str
forbidden_rp_id_code_points =
    32 ∷ b'#' ∷ b'/' ∷ b':' ∷ b'<' ∷ b'>' ∷ b'?' ∷ b'@' ∷ b'[' ∷ 92 ∷ b']' ∷ b'^' ∷ b'|' ∷ b'%' ∷ []

unfoldable pub ends_with : ℕ → Str → Bool
ends_with b [] = false
ends_with b (c ∷ []) = eqb c b
ends_with b (c ∷ d ∷ s) = ends_with b (d ∷ s)

abbrev rp_id : Bool → String → Guard
rp_id = refuse_of "WEBAUTHN_RP_ID"

unfoldable pub label_tests : Str → List Guard
unfolding ◌==◌ ends_with contains_any
label_tests label =
    rp_id (label == []) "contains an empty label"
    ∷ rp_id (ltb max_rp_id_label_length (length label)) "a label is longer than 63 characters"
    ∷ rp_id (starts_with b'-' label || ends_with b'-' label) "a label begins or ends with a hyphen"
    ∷ rp_id (contains_any label forbidden_rp_id_code_points) "contains a forbidden character"
    ∷ rp_id (any (λ c. ltb c 32 || leb 127 c) label) "contains a control or non-ASCII character"
    ∷ []

abbrev is_digit : ℕ → Bool
is_digit c = leb b'0' c && leb c b'9'

module _ {F : Type 0} (lib : Library F) where
  unfoldable pub is_numeric_label : Str → Bool
  unfolding ◌==◌
  is_numeric_label label =
      if label == [] then false else if all is_digit label then true else lib.is_uint label

  -- The last of the labels.
  abbrev last_label : List Str → Str
  last_label [] = []
  last_label (l ∷ []) = l
  last_label (l ∷ m ∷ ls) = last_label (m ∷ ls)

  unfoldable pub validate_rp_id : Str → List Guard
  unfolding ◌==◌ split_byte each label_tests is_numeric_label
  validate_rp_id value =
      let labels = split_byte b'.' value in
      rp_id (value == []) "empty value"
      ∷ rp_id (lib.is_ip value) "an IP address is not a domain"
      ∷ rp_id (ltb max_rp_id_length (length value)) "longer than 253 characters"
      ∷ (each label_tests labels
          ++ (rp_id (is_numeric_label (last_label labels)) "the last label must not be a number"
              ∷ rp_id (eqb (length labels) 1 && not (value == str "localhost"))
                  "a single-label name is not a domain"
              ∷ []))

  unfoldable pub lint_web_authn : Environment → List Guard
  unfolding os_getenv trim_space to_lower mem ◌==◌ validate_rp_id
  lint_web_authn env =
      let rp = trim_space (os_getenv env "WEBAUTHN_RP_ID") in
      if not (
        mem (to_lower (trim_space (os_getenv env "WEBAUTHN_ENABLED")))
          (str "1" ∷ str "t" ∷ str "true" ∷ str "yes" ∷ str "y" ∷ str "on" ∷ []))
      then []
      else rp_id (rp == []) "is required when WEBAUTHN_ENABLED=true" ∷ validate_rp_id rp
