-- ===== src/Policy/Guards/Rbac.antt =====
-- What the permission policies let through, behind AuthRequired.
use superapi.Prelude.{
  ℕ, Str, ◌≡◌, ◌≢◌, refl, ◌∙◌, Bool, some, List, [], ◌∷◌, Dict, all, any, if◌then◌else◌, Bool-cases,
  inl, inr,
}
use superapi.Policy.Guards.{
  AuthResult, Request, Handler, Policy, chain, forbidden, AuthExtension, Guarded, authenticated,
  auth_required, trimmed_perms, with_result, refuse_unauthorized, require_all, require_any,
  unless_empty, require_perm, require_any_perm,
}
use superapi.Policy.Guards.Outcomes.{IsAuthenticated, auth_required_runs}

module _ (has_permission : ℕ → Str → Bool) where
  require_all_lem :
      (ps : List Str) (result : AuthResult) (next : Handler) (r : Request) (headers : Dict Str)
      → require_all has_permission ps result next r headers
        ≡ (if all (has_permission result.mask) ps then next r headers else forbidden headers)
  unfolding require_all
  require_all_lem [] result next r headers = refl
  require_all_lem (p ∷ ps) result next r headers =
      elim (Bool-cases (has_permission result.mask p)) [
        | inl e ↦ rw e (require_all_lem ps result next r headers)
        | inr e ↦ rw e refl
      ]

  require_any_lem :
      (ps : List Str) (result : AuthResult) (next : Handler) (r : Request) (headers : Dict Str)
      → require_any has_permission ps result next r headers
        ≡ (if any (has_permission result.mask) ps then next r headers else forbidden headers)
  unfolding require_any
  require_any_lem [] result next r headers = refl
  require_any_lem (p ∷ ps) result next r headers =
      elim (Bool-cases (has_permission result.mask p)) [
        | inl e ↦ rw e refl
        | inr e ↦ rw e (require_any_lem ps result next r headers)
      ]

  chain_two :
      (next : Handler) (p : Policy) (q : Policy) (xs : List Str) (r : Request) (headers : Dict Str)
      → xs ≢ []
      → chain next (some p ∷ unless_empty has_permission xs q ∷ []) r headers ≡ p (q next) r headers
  unfolding chain
  chain_two next p q [] r headers h = absurd (h refl)
  chain_two next p q (x ∷ xs) r headers h = refl

  -- Behind AuthRequired, for a request that it lets through: RequirePerm runs the handler if the
  -- token's mask has every permission of the list, trimmed and without the blank ones, and
  -- RequireAnyPerm if it has one of them; otherwise they answer 403. Some permission is not blank.
  pub permissions_outcome :
      (guard : Request → Guarded) (exts : List AuthExtension) (perms : List Str) (next : Handler)
      (r : Request) (headers : Dict Str) (result : AuthResult)
      → trimmed_perms perms ≢ []
      → IsAuthenticated guard exts r result
      → (chain next
            (some (auth_required guard exts) ∷ require_perm has_permission perms ∷ [])
            r
            headers
          ≡ (if all (has_permission result.mask) (trimmed_perms perms)
              then next (authenticated exts result r) headers
              else forbidden headers))
        × (chain next
              (some (auth_required guard exts) ∷ require_any_perm has_permission perms ∷ [])
              r
              headers
            ≡ (if any (has_permission result.mask) (trimmed_perms perms)
                then next (authenticated exts result r) headers
                else forbidden headers))
  unfolding require_perm require_any_perm
  permissions_outcome guard exts perms next r headers result given auth =
      let required = trimmed_perms perms in
      let r' = authenticated exts result r in
      let q : Policy = λ next r headers.
        with_result refuse_unauthorized r.auth_result r.has_engine
          (require_all has_permission required) next r headers in
      let q' : Policy = λ next r headers.
        with_result refuse_unauthorized r.auth_result r.has_engine
          (require_any has_permission required) next r headers in
      (
        chain_two next (auth_required guard exts) q required r headers given
            ∙ auth_required_runs guard exts (q next) r headers result auth
            ∙ require_all_lem required result next r' headers,
        chain_two next (auth_required guard exts) q' required r headers given
            ∙ auth_required_runs guard exts (q' next) r headers result auth
            ∙ require_any_lem required result next r' headers,
      )
