-- ===== src/RateLimit/Verdicts.antt =====
-- What a rate limited route answers.
use superapi.Prelude.{
  ℕ, ◌+◌, ◌*◌, ◌/◌, ◌≤◌, ◌<◌, Str, ◌≡◌, refl, ap, Bool, true, false, none, some, leb, ltb,
  if◌then◌else◌, ◌⊎◌, inl, inr, arith, Bool-cases,
}
use superapi.Prelude.Float.{ceil_seconds-exact}
use superapi.RateLimit.{Caller, Rule, build_key, resolve_scope_and_identifier, retry_after_seconds}
use superapi.RateLimit.Decide.{
  ScriptResult, replied, failed, malformed, decided, validate_limits, unavailable, retry_of, decide,
  milliseconds, allow, Verdict, passed, limiter_unavailable, too_many_requests, seconds_header,
  judge, rate_limit,
}

-- Below it a float64 of seconds has the ceiling of the duration: 2 ^ 23 seconds.
abbrev pub exact_below : ℕ
exact_below = 8388608 * 1000000000

exact_seconds : (d : ℕ) → d < exact_below → retry_after_seconds d ≡ (d + 999999999) / 1000000000
unfolding retry_after_seconds
exact_seconds d h = ceil_seconds-exact d h

retry_after_seconds_positive : (d : ℕ) → 0 < d → d < exact_below → 0 < retry_after_seconds d
retry_after_seconds_positive d h below = omega (arith, exact_seconds d below)

-- Retry-After, which is computed in float64, is the number of whole seconds that a duration below
-- 2 ^ 23 seconds needs: not less, and less than a second more.
pub retry_after_seconds_rounds_up :
    (d : ℕ)
    → d < exact_below
    → (d ≤ retry_after_seconds d * 1000000000)
      × (retry_after_seconds d * 1000000000 < d + 1000000000)
retry_after_seconds_rounds_up d h =
    (omega (arith, exact_seconds d h), omega (arith, exact_seconds d h))

-- The number of whole seconds that a duration needs.
abbrev pub Seconds : ℕ → ℕ → Type 0
Seconds seconds d = (d ≤ seconds * 1000000000) × (seconds * 1000000000 < d + 1000000000)

-- The seconds of the 429 for a reply: those of its time to live, which is in milliseconds, or of the
-- window if there is none.
abbrev pub Waits : ℕ → ℕ → ℕ → Type 0
Waits window ttl seconds =
    ((0 < ttl) × Seconds seconds (ttl * 1000000)) ⊎ ((ttl ≡ 0) × Seconds seconds window)

-- What a policy may answer when the script gave this.
abbrev pub Answers : Bool → ℕ → ScriptResult → Verdict → Type 0
Answers fails_open window (replied p) v =
    ((p.allowed ≡ true) × (v ≡ passed))
    ⊎ ((p.allowed ≡ false)
        × (seconds : ℕ) × (0 < seconds)
        × Waits window p.ttl seconds
        × (v ≡ too_many_requests (some seconds)))
Answers fails_open window failed v = v ≡ (if fails_open then passed else limiter_unavailable)
Answers fails_open window malformed v = v ≡ (if fails_open then passed else limiter_unavailable)

-- The time to live that is replied is below 2 ^ 23 seconds.
abbrev pub lives_below : ScriptResult → Bool
lives_below (replied p) = ltb p.ttl 8388608000
lives_below failed = true
lives_below malformed = true

unavailable_answers :
    (fails_open : Bool) (window : ℕ)
    → judge (decided (unavailable fails_open window))
      ≡ (if fails_open then passed else limiter_unavailable)
unavailable_answers true window = refl
unavailable_answers false window = refl

retry_of-positive : (window ttl : ℕ) → 0 < window → 0 < retry_of window ttl
retry_of-positive window ttl h = ground arith

retry_of-below :
    (window ttl : ℕ)
    → window < exact_below
    → ltb ttl 8388608000 ≡ true
    → retry_of window ttl < exact_below
retry_of-below window ttl h k = ground arith

retry_of-Waits :
    (window ttl : ℕ)
    → window < exact_below
    → ltb ttl 8388608000 ≡ true
    → Waits window ttl (retry_after_seconds (retry_of window ttl))
retry_of-Waits window ttl h k = elim (Bool-cases (ltb 0 ttl)) [
  | inl lives ↦
      let positive : 0 < ttl = ground arith in
      inl (positive, rw lives (retry_after_seconds_rounds_up (ttl * 1000000) (ground arith)))
  | inr none_left ↦
      let zero_left : ttl ≡ 0 = ground arith in
      inr (zero_left, rw none_left (retry_after_seconds_rounds_up window h))
]

seconds_header-positive : (seconds : ℕ) → 0 < seconds → seconds_header seconds ≡ some seconds
seconds_header-positive seconds h = ground arith

decided-Answers :
    (fails_open : Bool) (limit window : ℕ) (result : ScriptResult)
    → 0 < window
    → window < exact_below
    → lives_below result ≡ true
    → Answers fails_open window result (judge (decided (decide fails_open limit window result)))
decided-Answers fails_open limit window failed h below lives = unavailable_answers fails_open window
decided-Answers fails_open limit window malformed h below lives =
    unavailable_answers fails_open window
decided-Answers fails_open limit window (replied p) h below lives = elim (Bool-cases p.allowed) [
  | inl a ↦ inl (a, rw a refl)
  | inr a ↦
      let retry = retry_of window p.ttl in
      let positive =
        retry_after_seconds_positive retry (retry_of-positive window p.ttl h)
          (retry_of-below window p.ttl below lives) in
      inr (
        a,
        retry_after_seconds retry,
        positive,
        retry_of-Waits window p.ttl below lives,
        rw a (ap too_many_requests (seconds_header-positive (retry_after_seconds retry) positive)),
      )
]

valid_limits : (limit window : ℕ) → 0 < limit → 0 < window → validate_limits limit window ≡ none
unfolding validate_limits
valid_limits limit window h k =
    let a : leb limit 0 ≡ false = ground arith in
    let b : leb window 0 ≡ false = ground arith in rw a (rw b refl)

-- A route whose rule has a positive limit and a positive window below 2 ^ 23 seconds runs the handler
-- if the script allows the request. If it does not, the policy answers 429, whose Retry-After is
-- positive and the number of whole seconds that the time to live of the reply needs, rounded up, or
-- those of the window if the reply has none; the time to live is below 2 ^ 23 seconds too. If the
-- script cannot be run, the policy runs the handler or answers 503, as the limiter is set to fail. It
-- never answers 500.
pub rate_limit_outcome :
    (run : Str → ℕ → ℕ → ScriptResult) (env : Str) (fails_open : Bool) (route : Str) (rule : Rule)
    (r : Caller)
    → 0 < rule.limit
    → 0 < rule.window
    → rule.window < exact_below
    → (let (scope, identifier) = resolve_scope_and_identifier r rule in
        lives_below
          (run (build_key env route scope identifier) rule.limit (milliseconds rule.window)))
      ≡ true
    → let (scope, identifier) = resolve_scope_and_identifier r rule in
      Answers fails_open rule.window
        (run (build_key env route scope identifier) rule.limit (milliseconds rule.window))
        (rate_limit run env fails_open route rule r)
unfolding rate_limit allow
rate_limit_outcome run env fails_open route rule r h k below lives =
    let (scope, identifier) = resolve_scope_and_identifier r rule in
    rw (valid_limits rule.limit rule.window h k) (
      decided-Answers fails_open rule.limit rule.window
        (run (build_key env route scope identifier) rule.limit (milliseconds rule.window)) k below
        lives)
