-- ===== src/RateLimit/Decide.antt =====
-- internal/core/ratelimit/ratelimit.go, Allow, and internal/core/policy/ratelimit.go: the decision
-- about one request and what the policy answers. What running the script gives is a parameter; the
-- observer of outcomes, a metric, is left out. The Retry-After header is its number of seconds.
use superapi.Prelude.{
  ℕ, ◌-◌, ◌*◌, ◌/◌, Str, str, Bool, true, false, Option, none, some, leb, ltb, if◌then◌else◌,
}
use superapi.RateLimit.{Caller, Rule, build_key, resolve_scope_and_identifier, retry_after_seconds}
use superapi.RateLimit.Script.{ScriptReply}

pub data Outcome : Type 0 where
  allowed_outcome blocked fail_open error_outcome : Outcome

pub record Decision : Type 0 where
  pub allowed : Bool
  pub remaining : ℕ
  pub retry_after : ℕ
  pub outcome : Outcome

-- What the client's Run gives: the three numbers, an error, or something else.
pub data ScriptResult : Type 0 where
  replied : ScriptReply → ScriptResult
  failed malformed : ScriptResult

pub data Allowed : Type 0 where
  decided : Decision → Allowed
  invalid : Str → Allowed

-- Rule.Validate and validateRequest.
unfoldable pub validate_limits : ℕ → ℕ → Option Str
validate_limits limit window =
    if leb limit 0
    then some (str "rate limit must be > 0")
    else if leb window 0
    then some (str "rate limit window must be > 0")
    else none

abbrev pub unavailable : Bool → ℕ → Decision
unavailable true window = record {
  allowed = true;
  remaining = 0;
  retry_after = 0;
  outcome = fail_open;
}
unavailable false window = record {
  allowed = false;
  remaining = 0;
  retry_after = window;
  outcome = error_outcome;
}

-- A reply's time to live in nanoseconds, or the whole window.
abbrev pub retry_of : ℕ → ℕ → ℕ
retry_of window ttl = if ltb 0 ttl then ttl * 1000000 else window

abbrev pub decide : Bool → ℕ → ℕ → ScriptResult → Decision
decide fails_open limit window failed = unavailable fails_open window
decide fails_open limit window malformed = unavailable fails_open window
decide fails_open limit window (replied reply) =
    if reply.allowed
    then record {
      allowed = true;
      remaining = limit - reply.current;
      retry_after = 0;
      outcome = allowed_outcome;
    }
    else record {
      allowed = false;
      remaining = limit - reply.current;
      retry_after = retry_of window reply.ttl;
      outcome = blocked;
    }

abbrev unless_invalid : Option Str → Decision → Allowed
unless_invalid none d = decided d
unless_invalid (some e) d = invalid e

-- Milliseconds of a duration in nanoseconds.
unfoldable pub milliseconds : ℕ → ℕ
milliseconds window = window / 1000000

-- What the policy does with a request: run the handler, or answer 500, 503 or 429.
pub data Verdict : Type 0 where
  passed : Verdict
  internal_error : Verdict
  limiter_unavailable : Verdict
  too_many_requests : Option ℕ → Verdict

abbrev pub seconds_header : ℕ → Option ℕ
seconds_header seconds = if ltb 0 seconds then some seconds else none

abbrev pub refuse : Outcome → ℕ → Verdict
refuse error_outcome retry_after = limiter_unavailable
refuse allowed_outcome retry_after =
    too_many_requests (seconds_header (retry_after_seconds retry_after))
refuse blocked retry_after = too_many_requests (seconds_header (retry_after_seconds retry_after))
refuse fail_open retry_after = too_many_requests (seconds_header (retry_after_seconds retry_after))

abbrev pub judge : Allowed → Verdict
judge (invalid e) = internal_error
judge (decided d) = if d.allowed then passed else refuse d.outcome d.retry_after

module _ (run : Str → ℕ → ℕ → ScriptResult) where
  unfoldable pub allow : Str → Bool → Str → Str × Str → ℕ → ℕ → Allowed
  unfolding validate_limits build_key milliseconds
  allow env fails_open route (scope, identifier) limit window =
      unless_invalid (validate_limits limit window) (
        decide fails_open limit window
          (run (build_key env route scope identifier) limit (milliseconds window)))

  -- The handler of RateLimitWithKeyer, for a route pattern and the limiter's settings.
  unfoldable pub rate_limit : Str → Bool → Str → Rule → Caller → Verdict
  unfolding allow resolve_scope_and_identifier retry_after_seconds
  rate_limit env fails_open route rule r =
      judge
        (allow env fails_open route (resolve_scope_and_identifier r rule) rule.limit rule.window)
